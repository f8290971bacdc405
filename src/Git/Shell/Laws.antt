-- ===== src/Git/Shell/Laws.antt =====
-- A quoted text is read back as it was, as a part of one word.
use grand_line.Common.{
  ℕ, ◌≡◌, refl, ◌∙◌, ap, sym, Bool, true, false, Option, some, List, [], ◌∷◌, ◌++◌, arith, not,
  ==_iff, ◌==◌, all_by, contains, Text, Bool-cases, inl, inr, &&-left, &&-right,
}
use grand_line.Git.Shell.{
  live_characters, is_safe, single, double, escape, quote, ordinary, kind_of, Token, plain,
  in_single, text_of, extended, read_plain, read_one, read,
}

differ : (b : Bool) → b ≡ true → b ≡ false → ⊥
differ b h k = ground arith

unsafe : (b : Bool) → not b ≡ true → b ≡ false
unsafe b h = ground arith

unlike : (c v : ℕ) → is_safe c ≡ true → is_safe v ≡ false → (c == v) ≡ false
unlike c v h k = elim (Bool-cases (c == v)) [
  | inl e ↦ absurd (differ (is_safe v) (ap is_safe (sym ((==_iff c v).0 e)) ∙ h) k)
  | inr e ↦ e
]

unlike_sym : (v c : ℕ) → (c == v) ≡ false → (v == c) ≡ false
unlike_sym v c h = ground arith

unlike_all :
    (c : ℕ) (vs : List ℕ)
    → is_safe c ≡ true
    → all_by (λ v. not (is_safe v)) vs ≡ true
    → contains c vs ≡ false
unlike_all c [] h k = refl
unlike_all c (v ∷ vs) h k =
    rw
      (
        unlike_sym v c (
            unlike c v h (
              unsafe (is_safe v) (&&-left (not (is_safe v)) (all_by (λ u. not (is_safe u)) vs) k))),
        unlike_all c vs h (&&-right (not (is_safe v)) (all_by (λ u. not (is_safe u)) vs) k),
      )
      refl

is_safe-ordinary : (c : ℕ) → is_safe c ≡ true → kind_of c ≡ ordinary
is_safe-ordinary c h =
    rw
      (
        unlike c 32 h refl,
        unlike c 9 h refl,
        unlike c single h refl,
        unlike c double h refl,
        unlike_all c live_characters h refl,
      )
      refl

pub ++-nil : (xs : Text) → xs ++ [] ≡ xs
++-nil [] = refl
++-nil (x ∷ xs) = ap (λ t. x ∷ t) (++-nil xs)

++-snoc : (w : Text) (c : ℕ) (t : Text) → (w ++ c ∷ []) ++ t ≡ w ++ c ∷ t
++-snoc [] c t = refl
++-snoc (x ∷ w) c t = ap (λ u. x ∷ u) (++-snoc w c t)

reads_as :
    (rest : Text) (ts : List Token) {u v : Text}
    → u ≡ v
    → read rest (record { mode = plain; current = some u; tokens = ts })
      ≡ read rest (record { mode = plain; current = some v; tokens = ts })
reads_as rest ts e = ap (λ t. read rest (record { mode = plain; current = some t; tokens = ts })) e

read_one-safe :
    (c : ℕ) (w : Option Text) (ts : List Token)
    → is_safe c ≡ true
    → read_one plain c (record { mode = plain; current = w; tokens = ts })
      ≡ record { mode = plain; current = extended c w; tokens = ts }
read_one-safe c w ts h =
    ap (λ k. read_plain k c (record { mode = plain; current = w; tokens = ts }))
      (is_safe-ordinary c h)

read_one-quoted :
    (c : ℕ) (w : Text) (ts : List Token)
    → (c == single) ≡ false
    → read_one in_single c (record { mode = in_single; current = some w; tokens = ts })
      ≡ record { mode = in_single; current = some (w ++ c ∷ []); tokens = ts }
read_one-quoted c w ts h = rw h refl

read-safe :
    (t rest : Text) (w : Option Text) (c : ℕ) (ts : List Token)
    → all_by is_safe (c ∷ t) ≡ true
    → read (c ∷ t ++ rest) (record { mode = plain; current = w; tokens = ts })
      ≡ read rest (record { mode = plain; current = some (text_of w ++ c ∷ t); tokens = ts })
unfolding read
read-safe [] rest w c ts h = ap (read rest) (read_one-safe c w ts (&&-left (is_safe c) true h))
read-safe (d ∷ t) rest w c ts h =
    ap (read (d ∷ t ++ rest))
      (read_one-safe c w ts (&&-left (is_safe c) (all_by is_safe (d ∷ t)) h))
    ∙ read-safe t rest (extended c w) d ts (&&-right (is_safe c) (all_by is_safe (d ∷ t)) h)
    ∙ reads_as rest ts (++-snoc (text_of w) c (d ∷ t))

escape-other : (c : ℕ) (t : Text) → (c == single) ≡ false → escape (c ∷ t) ≡ c ∷ escape t
escape-other c t h = rw h refl

read-escape :
    (t w rest : Text) (ts : List Token)
    → read (escape t ++ single ∷ rest) (record { mode = in_single; current = some w; tokens = ts })
      ≡ read rest (record { mode = plain; current = some (w ++ t); tokens = ts })
unfolding read
read-escape [] w rest ts = reads_as rest ts (sym (++-nil w))
read-escape (c ∷ t) w rest ts = elim (Bool-cases (c == single)) [
  | inl e ↦ rw e (
      read-escape t (w ++ single ∷ []) rest ts
      ∙ reads_as rest ts (++-snoc w single t ∙ ap (λ d. w ++ d ∷ t) (sym ((==_iff c single).0 e))))
  | inr e ↦
      ap
        (λ u.
          read (u ++ single ∷ rest) (record { mode = in_single; current = some w; tokens = ts }))
        (escape-other c t e)
      ∙ ap (read (escape t ++ single ∷ rest)) (read_one-quoted c w ts e)
      ∙ read-escape t (w ++ c ∷ []) rest ts
      ∙ reads_as rest ts (++-snoc w c t)
]

-- Whatever a text holds, a shell that reads it quoted, not inside of other quotes, takes exactly this
-- text into the word that it is reading and acts on none of its characters.
pub read-quote :
    (t rest : Text) (w : Option Text) (ts : List Token)
    → read (quote t ++ rest) (record { mode = plain; current = w; tokens = ts })
      ≡ read rest (record { mode = plain; current = some (text_of w ++ t); tokens = ts })
unfolding read quote
read-quote [] rest w ts = reads_as rest ts (sym (++-nil (text_of w)))
read-quote (c ∷ t) rest w ts = elim (Bool-cases (all_by is_safe (c ∷ t))) [
  | inl e ↦ rw e (read-safe t rest w c ts e)
  | inr e ↦ rw e (
      ap (λ u. read u (record { mode = in_single; current = some (text_of w); tokens = ts }))
        (++-snoc (escape (c ∷ t)) single rest)
      ∙ read-escape (c ∷ t) (text_of w) rest ts)
]
