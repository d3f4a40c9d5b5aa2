-- ===== src/Workflow/Queue/Batch.antt =====
-- What an UPDATE over the ids that a SELECT … ORDER BY … LIMIT returned does to each row of the table.
use freight_auditor.Prelude.{
  ℕ, zero, suc, ◌≤◌, String, ◌==◌, Bool, true, false, some, List, [], ◌∷◌, map, keep, take, length,
  sort_by, includes, if◌then◌else◌, All, ◌≡◌, ◌⊎◌, inl, inr, refl, sym, ap, subst, ◌∙◌, arith,
  eq_iff, Bool-cases, All-sort_by, sort_by-All, All-keep, keep-All, All-keep_if, length-sort_by,
  length-keep,
}
use freight_auditor.Workflow.Queue.{Row, ids, update_in, returning, select_ids, limit}
use freight_auditor.Workflow.Queue.Rows.{
  with_id, Distinct, Changed, some_inj, All-take, All-mono, All-zip, keep-passes, includes-ids,
  absent-keep, with_id_self,
}

module _ {W : Type 0} where
  module _ (test : Row W → Bool) (le : Row W → Row W → Bool) (limit : ℕ) (rows : List (Row W))
      (distinct : Distinct rows) where
    abbrev Found : Row W → Type 0
    Found r = (with_id r.id rows ≡ some r) × (test r ≡ true)

    test_of :
        (r c : Row W)
        → with_id r.id rows ≡ some r
        → with_id c.id rows ≡ some c
        → c.id ≡ r.id
        → test c ≡ true
        → test r ≡ true
    test_of r c e found same passes =
        let eq : some r ≡ some c = sym e ∙ ap (λ i. with_id i rows) (sym same) ∙ found in
        ap test (some_inj r c eq) ∙ passes

    selected-Found : All Found (take limit (sort_by le (keep test rows)))
    selected-Found = All-take Found limit (sort_by le (keep test rows)) (
        All-sort_by Found le (keep test rows) (
          All-zip (λ r. with_id r.id rows ≡ some r) (λ r. test r ≡ true) Found (keep test rows)
            (λ r e t. (e, t))
            (All-keep (λ r. with_id r.id rows ≡ some r) test rows (with_id_self rows distinct))
            (keep-passes test rows)))

    pub select-passes :
        All (λ r. includes r.id (select_ids test le limit rows) ≡ true → test r ≡ true) rows
    unfolding select_ids
    select-passes =
        All-mono (λ r. with_id r.id rows ≡ some r)
          (λ r. includes r.id (select_ids test le limit rows) ≡ true → test r ≡ true) rows
          (λ r e inside.
            let (c, (found, passes), same) =
              includes-ids Found r.id (take limit (sort_by le (keep test rows))) selected-Found
                inside in
            test_of r c e found same passes)
          (with_id_self rows distinct)

  pub update-Changed :
      (test : Row W → Bool) (f : Row W → Row W) (chosen : List String) (rows : List (Row W))
      → All (λ r. includes r.id chosen ≡ true → test r ≡ true) rows
      → Changed test f rows (update_in chosen f rows)
  unfolding update_in Changed
  update-Changed test f chosen [] h = tt
  update-Changed test f chosen (r ∷ rs) h = (
    elim (Bool-cases (includes r.id chosen)) [ inl e ↦ inr (h.0 e, rw e) | inr e ↦ inl (rw e) ],
    update-Changed test f chosen rs h.1,
  )

  module _ (test : Row W → Bool) (f : Row W → Row W) (same_id : (r : Row W) → (f r).id ≡ r.id) where
    ids-Changed : (rows rows' : List (Row W)) → Changed test f rows rows' → ids rows' ≡ ids rows
    unfolding Changed
    ids-Changed [] [] h = refl
    ids-Changed (r ∷ rs) (s ∷ ss) h = ground (arith, h, same_id r, ids-Changed rs ss h.1)
    ids-Changed [] (s ∷ ss) h = absurd h
    ids-Changed (r ∷ rs) [] h = absurd h

    pub Changed-Distinct :
        (rows rows' : List (Row W)) → Changed test f rows rows' → Distinct rows → Distinct rows'
    unfolding Changed Distinct
    Changed-Distinct [] [] h d = tt
    Changed-Distinct (r ∷ rs) (s ∷ ss) h d =
        (ground (arith, h, same_id r, ids-Changed rs ss h.1, d.0), Changed-Distinct rs ss h.1 d.1)
    Changed-Distinct [] (s ∷ ss) h d = absurd h
    Changed-Distinct (r ∷ rs) [] h d = absurd h

  pub Changed-All :
      (test : Row W → Bool) (f : Row W → Row W) (P : Row W → Type 0) (rows rows' : List (Row W))
      → ((r : Row W) → P r → test r ≡ true → P (f r))
      → Changed test f rows rows'
      → All P rows
      → All P rows'
  unfolding Changed
  Changed-All test f P [] [] keeps h k = tt
  Changed-All test f P (r ∷ rs) (s ∷ ss) keeps h k = (
    elim h.0 [ inl e ↦ subst P (sym e) k.0 | inr (t, e) ↦ subst P (sym e) (keeps r k.0 t) ],
    Changed-All test f P rs ss keeps h.1 k.1,
  )
  Changed-All test f P [] (s ∷ ss) keeps h k = absurd h
  Changed-All test f P (r ∷ rs) [] keeps h k = absurd h

  -- A limit that no selection exceeds selects every row that passes the test.
  take_all : (n : ℕ) (rows : List (Row W)) → length rows ≤ n → take n rows ≡ rows
  take_all zero [] h = refl
  take_all zero (r ∷ rs) h = absurd (omega (arith, h))
  take_all (suc n) [] h = refl
  take_all (suc n) (r ∷ rs) h = ap (λ (t : List (Row W)). r ∷ t) (take_all n rs (omega arith))

  Included : List (Row W) → Row W → Type 0
  Included rows r = includes r.id (ids rows) ≡ true

  Included-self : (rows : List (Row W)) → All (Included rows) rows
  unfolding Included
  Included-self [] = tt
  Included-self (r ∷ rs) = (
    ground (arith, eq_iff r.id r.id),
    All-mono (Included rs) (Included (r ∷ rs)) rs (λ s e. ground (arith, e)) (Included-self rs),
  )

  pub select_all :
      (test : Row W → Bool) (le : Row W → Row W → Bool) (limit : ℕ) (rows : List (Row W))
      → length rows ≤ limit
      → All (λ r. test r ≡ true → includes r.id (select_ids test le limit rows) ≡ true) rows
  unfolding select_ids Included
  select_all test le limit rows fits =
      let sorted = sort_by le (keep test rows) in
      let whole : take limit sorted ≡ sorted =
        take_all limit sorted
          (omega (arith, length-sort_by le (keep test rows), length-keep test rows)) in
      keep-All (λ r. includes r.id (ids (take limit sorted)) ≡ true) test rows
        (sort_by-All (λ r. includes r.id (ids (take limit sorted)) ≡ true) le (keep test rows)
          (rw whole (Included-self sorted)))

  abbrev pub changed_if : (Row W → Bool) → (Row W → Row W) → Row W → Row W
  changed_if test f r = if test r then f r else r

  pub update-map :
      (test : Row W → Bool) (f : Row W → Row W) (chosen : List String) (rows : List (Row W))
      → All (λ r. includes r.id chosen ≡ true → test r ≡ true) rows
      → All (λ r. test r ≡ true → includes r.id chosen ≡ true) rows
      → update_in chosen f rows ≡ map (changed_if test f) rows
  unfolding update_in
  update-map test f chosen [] h k = refl
  update-map test f chosen (r ∷ rs) h k =
      ground (arith, h.0, k.0, update-map test f chosen rs h.1 k.1)

  pub update-All :
      (P : Row W → Type 0) (f : Row W → Row W) (chosen : List String) (rows : List (Row W))
      → All
          (λ r. (includes r.id chosen ≡ true → P (f r)) × (includes r.id chosen ≡ false → P r))
          rows
      → All P (update_in chosen f rows)
  unfolding update_in
  update-All P f chosen [] h = tt
  update-All P f chosen (r ∷ rs) h = (
    elim (Bool-cases (includes r.id chosen)) [ inl e ↦ rw e (h.0.0 e) | inr e ↦ rw e (h.0.1 e) ],
    update-All P f chosen rs h.1,
  )

  pub Distinct-keep :
      (p : Row W → Bool) (rows : List (Row W)) → Distinct rows → Distinct (keep p rows)
  unfolding Distinct
  Distinct-keep p [] d = tt
  Distinct-keep p (r ∷ rs) d = ground (arith, absent-keep p r.id rs, Distinct-keep p rs d.1)

  pub map-Changed :
      (test : Row W → Bool) (f : Row W → Row W) (rows : List (Row W))
      → Changed test f rows (map (changed_if test f) rows)
  unfolding Changed
  map-Changed test f [] = tt
  map-Changed test f (r ∷ rs) = (
    elim (Bool-cases (test r)) [ inl e ↦ inr (e, rw e) | inr e ↦ inl (rw e) ],
    map-Changed test f rs,
  )

  -- What a lookup finds after the change is the row that it found before, changed or not.
  pub with_id-Changed :
      (test : Row W → Bool) (f : Row W → Row W) (same_id : (r : Row W) → (f r).id ≡ r.id)
      (i : String) (c : Row W) (rows rows' : List (Row W))
      → Changed test f rows rows'
      → with_id i rows ≡ some c
      → (d : Row W) × (with_id i rows' ≡ some d) × ((d ≡ c) ⊎ (d ≡ f c))
  unfolding Changed
  with_id-Changed test f same_id i c [] [] h e = cc
  with_id-Changed test f same_id i c [] (s ∷ ss) h e = absurd h
  with_id-Changed test f same_id i c (r ∷ rs) [] h e = absurd h
  with_id-Changed test f same_id i c (r ∷ rs) (s ∷ ss) h e =
      let kept : s.id ≡ r.id = ground (arith, h.0, same_id r) in
      elim (Bool-cases (r.id == i)) [
        | inl here ↦ (
          s,
          ground (arith, kept, here),
          elim h.0 [
            | inl same ↦ inl (same ∙ some_inj r c (ground (arith, e, here)))
            | inr (t, new) ↦ inr (new ∙ ap f (some_inj r c (ground (arith, e, here))))
          ],
        )
        | inr there ↦
            let (d, found, how) =
              with_id-Changed test f same_id i c rs ss h.1 (ground (arith, e, there)) in
            (d, ground (arith, kept, there, found), how)
      ]

  -- What holds of each chosen row, changed, holds of the rows that are returned.
  pub returning-All :
      (Q : Row W → Type 0) (f : Row W → Row W) (same_id : (r : Row W) → (f r).id ≡ r.id)
      (chosen : List String) (rows : List (Row W))
      → All (λ r. includes r.id chosen ≡ true → Q (f r)) rows
      → All Q (returning chosen (update_in chosen f rows))
  returning-All Q f same_id chosen rows h =
      All-keep_if Q (λ (r : Row W). includes r.id chosen) (update_in chosen f rows)
        (update-All (λ r. includes r.id chosen ≡ true → Q r) f chosen rows
          (All-mono (λ r. includes r.id chosen ≡ true → Q (f r))
            (λ r.
              (includes r.id chosen ≡ true → includes (f r).id chosen ≡ true → Q (f r))
              × (includes r.id chosen ≡ false → includes r.id chosen ≡ true → Q r))
            rows
            (λ r q.
              (λ inside _. q inside, λ outside inside. absurd (ground (arith, outside, inside))))
            h))
