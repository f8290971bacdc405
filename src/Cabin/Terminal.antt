-- ===== src/Cabin/Terminal.antt =====
-- `_NullCabinTerminal` of cabin/null_backend.py: a terminal that echoes what is written to it.
use mathlib.Core.List.{append_assoc, append-nil}
use grand_line.Common.{
  ℕ, ◌≡◌, refl, ap, sym, ◌∙◌, inl, inr, Bool-cases, Bool, true, false, Option, none, some, List, [],
  ◌∷◌, ◌++◌, if◌then◌else◌, Text, codes,
}

pub record Terminal : Type 0 where
  pub cols : ℕ
  pub rows : ℕ
  pub queue : List Text
  pub closed : Bool

-- `b"grandline-cabin:~$ "`
abbrev pub prompt : Text
prompt = codes "grandline-cabin:~$ "

unfoldable pub open_null_terminal : ℕ → ℕ → Terminal
open_null_terminal cols rows = record {
  cols = cols;
  rows = rows;
  queue = prompt ∷ [];
  closed = false;
}

-- `read`: no chunk where it waits for output.
abbrev pub read_queue : Bool → List Text → Option Text
read_queue true [] = some []
read_queue false [] = none
read_queue closed (x ∷ xs) = some x

abbrev pub rest_of : List Text → List Text
rest_of [] = []
rest_of (x ∷ xs) = xs

unfoldable pub terminal_read : Terminal → Option Text × Terminal
terminal_read t = (read_queue t.closed t.queue, record t { queue = rest_of t.queue })

unfoldable pub terminal_write : Text → Terminal → Terminal
terminal_write bytes t = if t.closed then t else record t { queue = t.queue ++ bytes ∷ [] }

unfoldable pub terminal_resize : ℕ → ℕ → Terminal → Terminal
terminal_resize cols rows t = record t { cols = cols; rows = rows }

unfoldable pub terminal_close : Terminal → Terminal
terminal_close t = if t.closed then t else record t { queue = t.queue ++ [] ∷ []; closed = true }

pub data TerminalCall : Type 0 where
  read : TerminalCall
  write : Text → TerminalCall
  resize : ℕ → ℕ → TerminalCall
  close : TerminalCall

abbrev pub bytes_of : Option Text → Text
bytes_of none = []
bytes_of (some x) = x

-- A series of calls: the bytes that its reads return, and the terminal after it.
unfoldable pub use_terminal : List TerminalCall → Terminal → Text × Terminal
unfolding terminal_read terminal_write terminal_resize terminal_close
use_terminal [] t = ([], t)
use_terminal (read ∷ cs) t =
    let (out, t') = use_terminal cs (terminal_read t).1 in (bytes_of (terminal_read t).0 ++ out, t')
use_terminal (write bytes ∷ cs) t = use_terminal cs (terminal_write bytes t)
use_terminal (resize cols rows ∷ cs) t = use_terminal cs (terminal_resize cols rows t)
use_terminal (close ∷ cs) t = use_terminal cs (terminal_close t)

abbrev pub joined : List Text → Text
joined [] = []
joined (x ∷ xs) = x ++ joined xs

-- What a series of calls writes before it closes the terminal.
abbrev pub typed : List TerminalCall → Text
typed [] = []
typed (read ∷ cs) = typed cs
typed (write bytes ∷ cs) = bytes ++ typed cs
typed (resize cols rows ∷ cs) = typed cs
typed (close ∷ cs) = []

abbrev pub typed_into : Bool → List TerminalCall → Text
typed_into true cs = []
typed_into false cs = typed cs

joined-append : (xs : List Text) (x : Text) → joined (xs ++ x ∷ []) ≡ joined xs ++ x
joined-append [] x = append-nil x
joined-append (y ∷ ys) x = rw (joined-append ys x, append_assoc y (joined ys) x) refl

typed_none : (closed : Bool) → typed_into closed [] ≡ []
typed_none true = refl
typed_none false = refl

typed_read :
    (closed : Bool) (cs : List TerminalCall) → typed_into closed cs ≡ typed_into closed (read ∷ cs)
typed_read true cs = refl
typed_read false cs = refl

typed_resize :
    (closed : Bool) (cols rows : ℕ) (cs : List TerminalCall)
    → typed_into closed cs ≡ typed_into closed (resize cols rows ∷ cs)
typed_resize true cols rows cs = refl
typed_resize false cols rows cs = refl

-- One write or close, before the rest of a series.
joined-write :
    (t : Terminal) (bytes : Text) (cs : List TerminalCall)
    → joined (terminal_write bytes t).queue ++ typed_into (terminal_write bytes t).closed cs
      ≡ joined t.queue ++ typed_into t.closed (write bytes ∷ cs)
unfolding terminal_write
joined-write t bytes cs = elim (Bool-cases t.closed) [
  | inl e ↦ rw (e) refl
  | inr e ↦ rw (e, joined-append t.queue bytes, append_assoc (joined t.queue) bytes (typed cs)) refl
]

joined-close :
    (t : Terminal) (cs : List TerminalCall)
    → joined (terminal_close t).queue ++ typed_into (terminal_close t).closed cs
      ≡ joined t.queue ++ typed_into t.closed (close ∷ cs)
unfolding terminal_close
joined-close t cs = elim (Bool-cases t.closed) [
  | inl e ↦ rw (e) refl
  | inr e ↦
      rw (e, joined-append t.queue [], append-nil (joined t.queue), append-nil (joined t.queue))
        refl
]

read_bytes :
    (closed : Bool) (queue : List Text)
    → bytes_of (read_queue closed queue) ++ joined (rest_of queue) ≡ joined queue
read_bytes true [] = refl
read_bytes false [] = refl
read_bytes true (x ∷ xs) = refl
read_bytes false (x ∷ xs) = refl

joined-read :
    (t : Terminal) (cs : List TerminalCall)
    → bytes_of (terminal_read t).0
        ++ (joined (terminal_read t).1.queue ++ typed_into (terminal_read t).1.closed cs)
      ≡ joined t.queue ++ typed_into t.closed (read ∷ cs)
unfolding terminal_read
joined-read t cs =
    sym (
      append_assoc (bytes_of (read_queue t.closed t.queue)) (joined (rest_of t.queue))
        (typed_into t.closed cs))
    ∙ rw (read_bytes t.closed t.queue) (ap (λ r. joined t.queue ++ r) (typed_read t.closed cs))

joined-resize :
    (cols rows : ℕ) (t : Terminal) (cs : List TerminalCall)
    → joined (terminal_resize cols rows t).queue
        ++ typed_into (terminal_resize cols rows t).closed cs
      ≡ joined t.queue ++ typed_into t.closed (resize cols rows ∷ cs)
unfolding terminal_resize
joined-resize cols rows t cs = ap (λ r. joined t.queue ++ r) (typed_resize t.closed cols rows cs)

-- What a terminal has returned and still holds, after any series of calls, is what it held before
-- and what was written to it before it was closed, byte for byte and in order.
pub use_terminal-typed :
    (cs : List TerminalCall) (t : Terminal)
    → (use_terminal cs t).0 ++ joined (use_terminal cs t).1.queue
      ≡ joined t.queue ++ typed_into t.closed cs
unfolding use_terminal
use_terminal-typed [] t = rw (typed_none t.closed, append-nil (joined t.queue)) refl
use_terminal-typed (read ∷ cs) t =
    let bytes = bytes_of (terminal_read t).0 in
    let next = (terminal_read t).1 in
    let (out, after) = use_terminal cs next in
    append_assoc bytes out (joined after.queue)
    ∙ ap (λ r. bytes ++ r) (use_terminal-typed cs next)
    ∙ joined-read t cs
use_terminal-typed (write bytes ∷ cs) t =
    use_terminal-typed cs (terminal_write bytes t) ∙ joined-write t bytes cs
use_terminal-typed (resize cols rows ∷ cs) t =
    use_terminal-typed cs (terminal_resize cols rows t) ∙ joined-resize cols rows t cs
use_terminal-typed (close ∷ cs) t = use_terminal-typed cs (terminal_close t) ∙ joined-close t cs
