-- ===== src/Services/Cabins/Tests.antt =====
-- Two users, of whom one stays away, and the theorem at them.
use grand_line.Common.{◌≡◌, refl, true, some, List, [], ◌∷◌, keep}
use grand_line.Services.Cabins.{gives, fails, one_shot, CabinBackend, reap_idle}
use grand_line.Services.Cabins.Laws.{users, distinct, is_dead, is_alive}
use grand_line.Services.Cabins.Reaping.{
  Visit, ensuring, working, destroying, no_cabins, visit_all, visit_all-reaped,
}

abbrev willing : CabinBackend
willing = record {
  ensure = λ calls user. gives tt;
  work = λ calls user w. gives "";
  status = λ calls user. gives "running";
  destroy = λ calls user. fails "gone";
  reveal = λ user kind. gives (some "key");
}

abbrev visits : List Visit
visits =
    ensuring 10 1
    ∷ ensuring 20 2
    ∷ ensuring 25 3
    ∷ working 50 60 2 (one_shot "ls" 30)
    ∷ destroying 3
    ∷ []

reap_idle_run :
    (reap_idle willing 60 1000 90 (visit_all willing 60 1000 visits no_cabins)).0 ≡ 1 ∷ []
unfolding reap_idle visit_all
reap_idle_run = refl

visit_all-reaped_example :
    ((reap_idle willing 60 1000 90 (visit_all willing 60 1000 visits no_cabins)).0
      ≡ users (keep (is_dead willing 60 1000 90) (visit_all willing 60 1000 visits no_cabins).rows))
    × ((reap_idle willing 60 1000 90 (visit_all willing 60 1000 visits no_cabins)).1.rows
        ≡ keep (is_alive willing 60 1000 90) (visit_all willing 60 1000 visits no_cabins).rows)
    × (distinct (visit_all willing 60 1000 visits no_cabins).rows ≡ true)
visit_all-reaped_example = visit_all-reaped willing 60 1000 visits 90
