-- ===== src/Publish/Alternatives.antt =====
-- Where an alternative of the gate stands in the printed text (`"|".join(pats)` of
-- bin/publish-data.py).
use text.Mathlib.TextLemmas.{append_assoc, append-nil, nil-append}
use msp_fleet_public.Base.{
  String, true, ◌≡◌, refl, ap, sym, ◌∙◌, ◌⊎◌, inl, inr, List, [], ◌∷◌, ◌==◌, ◌<>◌, arith, eq_iff,
  contains, Bool-cases,
}
use msp_fleet_public.Publish.{join}

-- The pattern stands in the text between bars, or between a bar and an end of the text; `last` is
-- what may follow the last pattern.
pub record IsAlternative (last pattern text : String) : Type 0 where
  pub left : String
  pub right : String
  pub splits : text ≡ left <> pattern <> right
  pub starts : (left ≡ "") ⊎ ((l : String) × (left ≡ l <> "|"))
  pub ends : (right ≡ last) ⊎ ((r : String) × (right ≡ "|" <> r))

starts_behind :
    (p left : String)
    → (left ≡ "") ⊎ ((l : String) × (left ≡ l <> "|"))
    → (l : String) × (p <> "|" <> left ≡ l <> "|")
starts_behind p left (inl e) = (p, rw (e, append-nil) refl)
starts_behind p left (inr (l, e)) =
    (p <> "|" <> l, rw (e, append_assoc p ("|" <> l) "|", append_assoc "|" l "|") refl)

behind_first :
    (p pattern text : String)
    → IsAlternative "" pattern text
    → IsAlternative "" pattern (p <> "|" <> text)
behind_first p pattern text a = record {
  left = p <> "|" <> a.left;
  right = a.right;
  splits =
      ap (λ t. p <> "|" <> t) a.splits
      ∙ sym (
          append_assoc p ("|" <> a.left) (pattern <> a.right)
          ∙ ap (λ t. p <> t) (append_assoc "|" a.left (pattern <> a.right)));
  starts = inr (starts_behind p a.left a.starts);
  ends = a.ends;
}

-- Every pattern of a list is an alternative of the joined text.
join-IsAlternative :
    (ps : List String) (pattern : String)
    → contains pattern ps ≡ true
    → IsAlternative "" pattern (join ps)
unfolding join
join-IsAlternative [] pattern h = cc
join-IsAlternative (p ∷ []) pattern h = record {
  left = "";
  right = "";
  splits =
      (eq_iff p pattern).0 (ground arith) ∙ sym (nil-append (pattern <> "") ∙ append-nil pattern);
  starts = inl refl;
  ends = inl refl;
}
join-IsAlternative (p ∷ q ∷ ps) pattern h = elim (Bool-cases (p == pattern)) [
  | inl e ↦ record {
    left = "";
    right = "|" <> join (q ∷ ps);
    splits =
        ap (λ x. x <> "|" <> join (q ∷ ps)) ((eq_iff p pattern).0 e)
        ∙ sym (nil-append (pattern <> "|" <> join (q ∷ ps)));
    starts = inl refl;
    ends = inr (join (q ∷ ps), refl);
  }
  | inr e ↦
      behind_first p pattern (join (q ∷ ps)) (join-IsAlternative (q ∷ ps) pattern (ground arith))
]

ends_line :
    (right : String)
    → (right ≡ "") ⊎ ((r : String) × (right ≡ "|" <> r))
    → (right <> "\n" ≡ "\n") ⊎ ((r : String) × (right <> "\n" ≡ "|" <> r))
ends_line right (inl e) = inl (rw (e, nil-append) refl)
ends_line right (inr (r, e)) = inr (r <> "\n", rw (e, append_assoc "|" r "\n") refl)

-- It is one of the printed line, too.
pub line-IsAlternative :
    (ps : List String) (pattern : String)
    → contains pattern ps ≡ true
    → IsAlternative "\n" pattern (join ps <> "\n")
line-IsAlternative ps pattern h =
    let a = join-IsAlternative ps pattern h in
    record {
      left = a.left;
      right = a.right <> "\n";
      splits =
          ap (λ t. t <> "\n") a.splits
          ∙ append_assoc a.left (pattern <> a.right) "\n"
          ∙ ap (λ t. a.left <> t) (append_assoc pattern a.right "\n");
      starts = a.starts;
      ends = ends_line a.right a.ends;
    }
