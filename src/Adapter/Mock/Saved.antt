-- ===== src/Adapter/Mock/Saved.antt =====
-- The state file of the mock adapter (`_load` and `_save` of roles/msp_broker/files/broker/mock.py),
-- call by call: what is on the disk when the broker stops in the middle. The pieces that the JSON
-- encoder writes and the JSON decoder are given.
use mathlib.Core.List.{append_assoc, append-nil}
use msp_fleet_public.Base.{
  ℕ, pos, Bool, true, false, ◌≡◌, refl, sym, ap, ◌∙◌, ◌⊎◌, inl, inr, Option, none, some, List, [],
  ◌∷◌, ◌++◌, map, all, arith,
}
use msp_fleet_public.Value.{Value, str, num, obj, end, field}

-- A file with its mode.
pub record Content : Type 0 where
  pub bytes : List ℕ
  pub mode : ℕ

-- The state file and the temporary one beside it.
pub record Disk : Type 0 where
  pub file : Option Content
  pub tmp : Option Content

-- The calls of `_save` that change the disk; a new file has the mode that the umask leaves.
pub data Call : Type 0 where
  open_tmp : ℕ → Call
  write_tmp : List ℕ → Call
  chmod_tmp replace_file : Call

abbrev written : List ℕ → Option Content → Option Content
written piece none = none
written piece (some c) = some (record c { bytes = c.bytes ++ piece })

abbrev opened_mode : ℕ → Option Content → ℕ
opened_mode new none = new
opened_mode new (some c) = c.mode

-- 0o600
abbrev chmoded : Option Content → Option Content
chmoded none = none
chmoded (some c) = some (record c { mode = 384 })

abbrev replaced : Option Content → Disk → Disk
replaced none d = d
replaced (some c) d = record { file = some c; tmp = none }

unfoldable pub do_call : Call → Disk → Disk
do_call (open_tmp new) d = record d {
  tmp = some (record { bytes = []; mode = opened_mode new d.tmp });
}
do_call (write_tmp piece) d = record d { tmp = written piece d.tmp }
do_call chmod_tmp d = record d { tmp = chmoded d.tmp }
do_call replace_file d = replaced d.tmp d

-- The calls up to `os.replace`, and all of them.
unfoldable pub prepare : ℕ → List (List ℕ) → List Call
prepare new pieces = open_tmp new ∷ (map write_tmp pieces ++ chmod_tmp ∷ [])

unfoldable pub save : ℕ → List (List ℕ) → List Call
unfolding prepare
save new pieces = prepare new pieces ++ replace_file ∷ []

unfoldable pub do_calls : List Call → Disk → Disk
unfolding do_call
do_calls [] d = d
do_calls (c ∷ cs) d = do_calls cs (do_call c d)

abbrev pub default_state : Value
default_state = obj (
    field "counter" (num (pos 0))
      (field "last_message" (str "") (field "last_target" (str "") end)))

abbrev or_default : Option Value → Value
or_default none = default_state
or_default (some v) = v

abbrev pub load_at : (List ℕ → Option Value) → Option Content → Value
load_at loads none = default_state
load_at loads (some c) = or_default (loads c.bytes)

-- `_load`; none of the decoder is a ValueError
unfoldable pub load_file : (List ℕ → Option Value) → Disk → Value
load_file loads d = load_at loads d.file

abbrev pub flattened : List (List ℕ) → List ℕ
flattened [] = []
flattened (piece ∷ pieces) = piece ++ flattened pieces

abbrev is_preparing : Call → Bool
is_preparing replace_file = false
is_preparing _ = true

do_calls-append : (a c : List Call) (d : Disk) → do_calls (a ++ c) d ≡ do_calls c (do_calls a d)
unfolding do_calls
do_calls-append [] c d = refl
do_calls-append (x ∷ a) c d = do_calls-append a c (do_call x d)

-- Until the file is replaced it stays as it is.
file-do_calls :
    (cs : List Call) (d : Disk) → all is_preparing cs ≡ true → (do_calls cs d).file ≡ d.file
unfolding do_calls do_call
file-do_calls [] d h = refl
file-do_calls (open_tmp new ∷ cs) d h = file-do_calls cs _ h
file-do_calls (write_tmp piece ∷ cs) d h = file-do_calls cs _ h
file-do_calls (chmod_tmp ∷ cs) d h = file-do_calls cs _ h
file-do_calls (replace_file ∷ cs) d h = cc

abbrev with_tmp : Option Content → Content → Disk
with_tmp file c = record { file = file; tmp = some c }

do_calls_writes :
    (pieces : List (List ℕ)) (c : Content) (file : Option Content)
    → do_calls (map write_tmp pieces) (record { file = file; tmp = some c })
      ≡ record { file = file; tmp = some (record c { bytes = c.bytes ++ flattened pieces }) }
unfolding do_calls do_call
do_calls_writes [] c file =
    ap (λ (l : List ℕ). with_tmp file (record c { bytes = l })) (sym (append-nil c.bytes))
do_calls_writes (piece ∷ pieces) c file =
    do_calls_writes pieces (record c { bytes = c.bytes ++ piece }) file
    ∙ ap (λ (l : List ℕ). with_tmp file (record c { bytes = l }))
        (append_assoc c.bytes piece (flattened pieces))

abbrev pub saved_disk : List ℕ → Disk
saved_disk bytes = record { file = some (record { bytes = bytes; mode = 384 }); tmp = none }

do_calls-save :
    (new : ℕ) (pieces : List (List ℕ)) (d : Disk)
    → do_calls (save new pieces) d ≡ saved_disk (flattened pieces)
unfolding save do_call
do_calls-save new pieces d =
    let empty : Content = record { bytes = []; mode = opened_mode new d.tmp } in
    do_calls-append (prepare new pieces) (replace_file ∷ []) d
    ∙ (unfold prepare do_calls in
        ap (λ (x : Disk). do_call replace_file x)
          (do_calls-append (map write_tmp pieces) (chmod_tmp ∷ []) (with_tmp d.file empty)
            ∙ ap (λ (x : Disk). do_call chmod_tmp x) (do_calls_writes pieces empty d.file)))

prepares_writes :
    (pieces : List (List ℕ)) → all is_preparing (map write_tmp pieces ++ chmod_tmp ∷ []) ≡ true
prepares_writes [] = refl
prepares_writes (piece ∷ pieces) = prepares_writes pieces

-- Where calls stop that end with the replacement.
stopped :
    (front before after : List Call)
    → all is_preparing front ≡ true
    → front ++ replace_file ∷ [] ≡ before ++ after
    → ((after ≡ []) × (before ≡ front ++ replace_file ∷ [])) ⊎ (all is_preparing before ≡ true)
stopped front [] after h e = inr refl
stopped [] (x ∷ []) after h e = inl (cc, cc)
stopped [] (x ∷ y ∷ before) after h e = cc
stopped (c ∷ front) (x ∷ before) after h e = elim (stopped front before after (ground arith) (cc)) [
  | inl p ↦ inl (p.0, cc (p.1))
  | inr p ↦
      (let same : c ≡ x = cc in
        let first : is_preparing c ≡ true = ground arith in
        inr (rw (ap is_preparing (sym same) ∙ first) p))
]

-- Whatever call of `_save` is the last before the broker stops, what is read afterwards is the state
-- before, or, if no call was left, the state that is written, in a file of mode 0o600: if the decoder
-- reads the encoder's pieces as this state, no reader ever sees a part of it.
pub load_file-save :
    (loads : List ℕ → Option Value) (new : ℕ) (pieces : List (List ℕ)) (state : Value) (d : Disk)
    (before after : List Call)
    → loads (flattened pieces) ≡ some state
    → save new pieces ≡ before ++ after
    → (load_file loads (do_calls before d) ≡ load_file loads d)
      ⊎ ((after ≡ [])
          × (load_file loads (do_calls before d) ≡ state)
          × (do_calls before d ≡ saved_disk (flattened pieces)))
unfolding load_file
load_file-save loads new pieces state d before after reads e =
    elim (stopped (prepare new pieces) before after (unfold prepare in prepares_writes pieces)
      (unfold save in e)) [
        | inl p ↦
            let all_done : do_calls before d ≡ saved_disk (flattened pieces) =
              ap (λ (cs : List Call). do_calls cs d) p.1
              ∙ (unfold save in do_calls-save new pieces d) in
            inr (p.0, ap (load_file loads) all_done ∙ ap or_default reads, all_done)
        | inr p ↦ inl (ap (load_at loads) (file-do_calls before d p))
      ]
