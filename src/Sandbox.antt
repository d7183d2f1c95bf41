-- ===== src/Sandbox.antt =====
-- The helpers of the sandbox (sandbox/gate-approve.py and sandbox/hc-fake.py): the loop that answers
-- the gate like an operator, and the request handler of the fake monitor. The pseudo-terminal, the
-- regular expression and the clock are given.
use msp_fleet_public.Base.{
  ℕ, ◌+◌, length, ◌≡◌, String, Bool, true, false, not, ◌&&◌, ◌||◌, Option, none, some, List, [],
  ◌∷◌, ◌++◌, ◌==◌, ◌<>◌, arith, nat_eq, if◌then◌else◌,
}
use msp_fleet_public.Kinds.{codes}

-- `wrong`, and the target that is typed, of the arguments behind the name of the script
unfoldable pub wrong_of : List String → Bool
wrong_of [] = false
wrong_of (a ∷ args) = a == "wrong" || wrong_of args

unfoldable pub target_of : List String → Option String
target_of [] = none
target_of (a ∷ args) = if a == "wrong" then target_of args else some a

abbrev is_prefix : List ℕ → List ℕ → Bool
is_prefix [] bytes = true
is_prefix (c ∷ part) [] = false
is_prefix (c ∷ part) (d ∷ bytes) = nat_eq c d && is_prefix part bytes

-- `part in bytes`
unfoldable pub has_bytes : List ℕ → List ℕ → Bool
has_bytes part [] = is_prefix part []
has_bytes part (c ∷ bytes) = is_prefix part (c ∷ bytes) || has_bytes part bytes

-- What the loop keeps, and the lines that it has typed.
pub record Typing : Type 0 where
  pub buf : List ℕ
  pub typed : Bool
  pub typed_t : Bool
  pub lines : List (List ℕ)

-- What a round before the deadline sees: nothing to read, bytes, or the end of the terminal.
pub data Round : Type 0 where
  nothing finished : Round
  chunk : List ℕ → Round

abbrev pub count_of : Bool → ℕ
count_of true = 1
count_of false = 0

length-append {ℓ} : {A : Type ℓ} (l m : List A) → length (l ++ m) ≡ length l + length m
length-append [] m = omega arith
length-append (x ∷ l) m = omega (arith, length-append l m)

module _ (find_code : List ℕ → Option (List ℕ)) (wrong : Bool) (target : Option String) where
  abbrev pub typed_answer : List ℕ → List ℕ
  typed_answer code = (if wrong then codes "nope" else code) ++ b'\n' ∷ []

  unfoldable pub type_code : Option (List ℕ) → Typing → Typing
  type_code none s = s
  type_code (some code) s =
      if s.typed then s else record s { typed = true; lines = s.lines ++ typed_answer code ∷ [] }

  unfoldable pub type_target : Option String → Typing → Typing
  type_target none s = s
  type_target (some id) s =
      if has_bytes (codes "type the target ID") s.buf && not s.typed_t
      then record s { typed_t = true; lines = s.lines ++ (codes id ++ b'\n' ∷ []) ∷ [] }
      else s

  -- a round that reads bytes
  unfoldable pub read_chunk : List ℕ → Typing → Typing
  unfolding type_code type_target
  read_chunk bytes s =
      let s' = record s { buf = s.buf ++ bytes } in
      type_target target (type_code (find_code s'.buf) s')

  -- The loop, over its rounds; an empty read ends it.
  unfoldable pub type_loop : List Round → Typing → Typing
  unfolding read_chunk
  type_loop [] s = s
  type_loop (nothing ∷ rounds) s = type_loop rounds s
  type_loop (finished ∷ rounds) s = s
  type_loop (chunk [] ∷ rounds) s = s
  type_loop (chunk (c ∷ bytes) ∷ rounds) s = type_loop rounds (read_chunk (c ∷ bytes) s)

  -- what was typed: at most one typed_answer and one target
  pub record Counted (s : Typing) : Type 0 where
    pub lines : length s.lines ≡ count_of s.typed + count_of s.typed_t

  type_code-Counted : (m : Option (List ℕ)) (s : Typing) → Counted s → Counted (type_code m s)
  unfolding type_code
  type_code-Counted none s h = h
  type_code-Counted (some code) s h =
      ground (arith, length-append s.lines (typed_answer code ∷ []), h.lines)

  type_target-Counted : (t : Option String) (s : Typing) → Counted s → Counted (type_target t s)
  unfolding type_target
  type_target-Counted none s h = h
  type_target-Counted (some id) s h =
      ground (arith, length-append s.lines ((codes id ++ b'\n' ∷ []) ∷ []), h.lines)

  -- However the terminal behaves, the code is answered at most once and the target is typed at most
  -- once: the lines that are typed are as many as the two marks say.
  pub type_loop-Counted :
      (rounds : List Round) (s : Typing) → Counted s → Counted (type_loop rounds s)
  unfolding type_loop
  type_loop-Counted [] s h = h
  type_loop-Counted (nothing ∷ rounds) s h = type_loop-Counted rounds s h
  type_loop-Counted (finished ∷ rounds) s h = h
  type_loop-Counted (chunk [] ∷ rounds) s h = h
  type_loop-Counted (chunk (c ∷ bytes) ∷ rounds) s h =
      let s' = record s { buf = s.buf ++ (c ∷ bytes) } in
      type_loop-Counted rounds (read_chunk (c ∷ bytes) s) (
        unfold read_chunk in
        type_target-Counted target (type_code (find_code s'.buf) s')
          (type_code-Counted (find_code s'.buf) s' (record { lines = h.lines })))

abbrev pub fresh : Typing
fresh = record { buf = []; typed = false; typed_t = false; lines = [] }

-- A request as the HTTP server reads it, with what `rfile.read(n)` has as a text.
pub record HttpRequest : Type 0 where
  pub command : String
  pub path : String
  pub content_length : Option String
  pub body : ℕ → String

abbrev announced : (String → Option ℕ) → Option String → Option ℕ
announced int none = some 0
announced int (some text) = if text == "" then some 0 else int text

-- `_log`: the line that is appended to the log, the status and the typed_answer; none where the length that
-- is announced is not a natural number
unfoldable pub log_request : (String → Option ℕ) → HttpRequest → Option (String × ℕ × String)
log_request int r = elim (announced int r.content_length) [
  | none ↦ none
  | some n ↦
      let body = if nat_eq n 0 then "" else r.body n in
      some (r.command <> " " <> r.path <> " " <> body <> "\n", 200, "OK")
]
