-- ===== src/AuditBatch/Cut.antt =====
-- What one batch takes of the catalog.
use mongo_overview_tool.Base.Int.{pos}
use native.Mathlib.Nat.{add-zero, zero-add, suc-add, add-suc}
use mongo_overview_tool.Base.{
  take-append-drop, length-take, ◌++◌, take, ◌&&◌, if◌then◌else◌, ◌-◌, ◌<◌, inr, inl, ℕ, zero, suc,
  ◌+◌, ◌≤◌, String, Bool, true, false, ◌||◌, List, [], ◌∷◌, ltb, ◌==◌, str_eq, length, drop, ◌≡◌,
  sym, ap, ◌∙◌, eq_iff, eq_refl, ◌⊎◌, refl, arith, length-drop,
}
use mongo_overview_tool.AuditBatch.{
  next_index_audit_batch, IndexCollectionRef, run_length, select_databases,
}

run_length-le :
    (database : String) (rs : List IndexCollectionRef) → run_length database rs ≤ length rs
unfolding run_length
run_length-le database [] = omega arith
run_length-le database (r ∷ rs) = ground (arith, run_length-le database rs)

-- How many refs the database in front has in front.
abbrev pub first_run : List IndexCollectionRef → ℕ
first_run [] = 0
first_run (r ∷ rs) = suc (run_length r.database rs)

-- The next database does not fit behind k refs that are taken, or none is left.
abbrev pub is_full_at : ℕ → ℕ → List IndexCollectionRef → Bool
is_full_at k limit refs = (length refs == k) || ltb limit (k + first_run (drop k refs))

-- The cut behind k refs separates two refs of one database.
unfoldable pub is_split : ℕ → List IndexCollectionRef → Bool
is_split zero rs = false
is_split (suc k) [] = false
is_split (suc zero) (r ∷ []) = false
is_split (suc zero) (r ∷ s ∷ rs) = str_eq s.database r.database
is_split (suc (suc k)) (r ∷ rs) = is_split (suc k) rs

drop-nil : {A : Type 0} → (m : ℕ) → drop {A = A} m [] ≡ []
drop-nil zero = refl
drop-nil (suc m) = refl

pub drop-drop : {A : Type 0} → (m n : ℕ) (xs : List A) → drop m (drop n xs) ≡ drop (n + m) xs
drop-drop m zero xs = rw (zero-add m)
drop-drop m (suc n) [] = rw (suc-add n m) (drop-nil m)
drop-drop m (suc n) (x ∷ xs) = rw (suc-add n m) (drop-drop m n xs)

other_database :
    (a b c : String) (same : Bool)
    → str_eq b a ≡ same
    → str_eq a c ≡ true
    → str_eq b c ≡ false
    → same ≡ false
other_database a b c false e h k = refl
other_database a b c true e h k =
    let b_c = (eq_iff b c).1 ((eq_iff b a).0 e ∙ (eq_iff a c).0 h) in ground (arith, b_c, k)

-- Behind the refs of the database in front the database changes.
run_split :
    (database : String) (r : IndexCollectionRef) (rs : List IndexCollectionRef)
    → str_eq r.database database ≡ true
    → is_split (suc (run_length database rs)) (r ∷ rs) ≡ false
unfolding run_length is_split
run_split database r [] h = refl
run_split database r (s ∷ rs) h =
    ground (arith, run_split database s rs, other_database r.database s.database database _ refl h)

split_add :
    (n j : ℕ) (xs : List IndexCollectionRef)
    → is_split (n + suc j) xs ≡ is_split (suc j) (drop n xs)
unfolding is_split
split_add zero j xs = rw (zero-add (suc j))
split_add (suc n) j [] = rw (suc-add n (suc j)) refl
split_add (suc n) j (x ∷ xs) =
    rw (suc-add n (suc j))
      (rw (add-suc n j) (sym (ap (λ i. is_split i xs) (add-suc n j)) ∙ split_add n j xs))

select_databases_lem :
    (fuel selected : ℕ) (rest : List IndexCollectionRef) (limit : ℕ)
    → length rest ≤ fuel
    → selected ≤ limit
    → 1 ≤ limit
    → let k = select_databases fuel selected rest limit in
      (selected ≤ k) × (k ≤ selected + length rest) × (k ≤ limit) × ((1 ≤ k) ⊎ (length rest ≡ 0))
unfolding select_databases
select_databases_lem zero selected [] limit f s l = ground arith
select_databases_lem zero selected (r ∷ rs) limit f s l = ground arith
select_databases_lem (suc fuel) selected [] limit f s l = ground arith
select_databases_lem (suc fuel) selected (r ∷ rs) limit f s l =
    let n = suc (run_length r.database rs) in
    ground (
      arith,
      select_databases_lem fuel (selected + n) (drop n (r ∷ rs)) limit,
      length-drop n (r ∷ rs),
      run_length-le r.database rs,
    )

split_shift :
    (r : IndexCollectionRef) (rs : List IndexCollectionRef) (j : ℕ)
    → let n = first_run (r ∷ rs) in
      is_split j (drop n (r ∷ rs)) ≡ false → is_split (n + j) (r ∷ rs) ≡ false
split_shift r rs zero h =
    rw (add-zero (first_run (r ∷ rs))) (run_split r.database r rs (eq_refl r.database))
split_shift r rs (suc j) h = split_add (first_run (r ∷ rs)) j (r ∷ rs) ∙ h

full_shift :
    (n j limit : ℕ) (refs : List IndexCollectionRef)
    → n ≤ length refs
    → is_full_at j limit (drop n refs) ≡ true
    → is_full_at (n + j) (n + limit) refs ≡ true
full_shift n j limit refs h full =
    ground (arith, full, length-drop n refs, ap first_run (drop-drop j n refs))

-- What the rounds that are left select.
abbrev Whole : ℕ → ℕ → ℕ → List IndexCollectionRef → Type 0
Whole k selected limit rest =
    ((selected ≡ 0) × (k ≡ limit) × (limit < first_run rest))
    ⊎ ((is_split (k - selected) rest ≡ false)
        × (is_full_at (k - selected) (limit - selected) rest ≡ true))

Whole-shift :
    (r : IndexCollectionRef) (rs : List IndexCollectionRef) (k selected limit : ℕ)
    → let n = first_run (r ∷ rs) in
      selected + n ≤ k
      → selected + n ≤ limit
      → Whole k (selected + n) limit (drop n (r ∷ rs))
      → Whole k selected limit (r ∷ rs)
Whole-shift r rs k selected limit h l (inl (z, e, f)) = ground arith
Whole-shift r rs k selected limit h l (inr (split, full)) =
    let n = first_run (r ∷ rs) in
    let e : k - selected ≡ n + (k - (selected + n)) = omega arith in
    let f : limit - selected ≡ n + (limit - (selected + n)) = omega arith in
    inr (
      rw e (split_shift r rs (k - (selected + n)) split),
      rw (e, f)
          (full_shift n (k - (selected + n)) (limit - (selected + n)) (r ∷ rs)
            (omega (arith, run_length-le r.database rs)) full),
    )

-- Nothing more is taken, as nothing is left or the next database does not fit.
stop-Whole :
    (selected limit : ℕ) (rest : List IndexCollectionRef)
    → is_full_at 0 (limit - selected) rest ≡ true
    → Whole selected selected limit rest
unfolding is_split
stop-Whole selected limit rest h =
    let e : selected - selected ≡ 0 = omega arith in inr (rw e refl, rw e h)

round-Whole :
    (selected limit more : ℕ) (r : IndexCollectionRef) (rs : List IndexCollectionRef)
    (large over : Bool)
    → let n = first_run (r ∷ rs) in
      (selected == 0 && ltb limit n) ≡ large
      → ltb limit (selected + n) ≡ over
      → (over ≡ false → Whole more selected limit (r ∷ rs))
      → Whole (if large then limit else if over then selected else more) selected limit (r ∷ rs)
round-Whole selected limit more r rs true over b o k = inl (ground arith, refl, ground arith)
round-Whole selected limit more r rs false true b o k =
    stop-Whole selected limit (r ∷ rs) (ground arith)
round-Whole selected limit more r rs false false b o k = k refl

select_databases-Whole :
    (fuel selected : ℕ) (rest : List IndexCollectionRef) (limit : ℕ)
    → length rest ≤ fuel
    → selected ≤ limit
    → 1 ≤ limit
    → Whole (select_databases fuel selected rest limit) selected limit rest
unfolding select_databases
select_databases-Whole zero selected [] limit f s l = stop-Whole selected limit [] refl
select_databases-Whole zero selected (r ∷ rs) limit f s l = ground arith
select_databases-Whole (suc fuel) selected [] limit f s l = stop-Whole selected limit [] refl
select_databases-Whole (suc fuel) selected (r ∷ rs) limit f s l =
    let n = first_run (r ∷ rs) in
    let rest = drop n (r ∷ rs) in
    let shorter : length rest ≤ fuel = omega (arith, length-drop n (r ∷ rs)) in
    round-Whole selected limit (select_databases fuel (selected + n) rest limit) r rs _ _ refl refl
      (λ fits.
        let le : selected + n ≤ limit = ground arith in
        Whole-shift r rs _ selected limit
          (select_databases_lem fuel (selected + n) rest limit shorter le l).0 le
          (select_databases-Whole fuel (selected + n) rest limit shorter le l))

full_cases :
    (k limit : ℕ) (refs : List IndexCollectionRef)
    → is_full_at k limit refs ≡ true
    → (k ≡ length refs) ⊎ (limit < k + first_run (drop k refs))
full_cases k limit refs h = ground arith

Whole-of :
    (k : ℕ) (refs : List IndexCollectionRef) (limit : ℕ)
    → Whole k 0 limit refs
    → ((k ≡ limit) × (limit < first_run refs))
      ⊎ ((is_split k refs ≡ false) × ((k ≡ length refs) ⊎ (limit < k + first_run (drop k refs))))
Whole-of k refs limit (inl (z, e, f)) = inl (e, f)
Whole-of k refs limit (inr (split, full)) =
    let e : k - 0 ≡ k = omega arith in
    let f : limit - 0 ≡ limit = omega arith in
    inr (rw e at split, full_cases k limit refs (rw (e, f) at full))

-- The number of refs that a batch takes.
abbrev selection : List IndexCollectionRef → ℕ → ℕ
selection refs limit = select_databases (length refs) 0 refs limit

next_of_selection :
    (refs : List IndexCollectionRef) (limit : ℕ)
    → 1 ≤ length refs
    → 1 ≤ limit
    → next_index_audit_batch refs (pos limit) ≡ take (selection refs limit) refs
unfolding next_index_audit_batch
next_of_selection refs limit h l = ground arith

-- A batch is a non-empty beginning of the refs, no longer than the limit.
pub next_index_audit_batch_lem :
    (refs : List IndexCollectionRef) (limit : ℕ)
    → 1 ≤ length refs
    → 1 ≤ limit
    → let batch = next_index_audit_batch refs (pos limit) in
      (batch ++ drop (length batch) refs ≡ refs) × (1 ≤ length batch) × (length batch ≤ limit)
next_index_audit_batch_lem refs limit h l =
    let b = select_databases_lem (length refs) 0 refs limit (omega arith) (omega arith) l in
    let k = selection refs limit in
    let e : length (take k refs) ≡ k = omega (arith, length-take k refs, b) in
    rw (next_of_selection refs limit h l) (
      ap (λ i. take k refs ++ drop i refs) e ∙ take-append-drop k refs,
      ground (arith, e, b),
      omega (arith, e, b),
    )

-- The batch ends with a whole database, and takes every database that fits: none is left, or the
-- next one would exceed the limit. The only batch that cuts a database is one of exactly the limit,
-- out of a first database that is larger.
pub next_index_audit_batch-Whole :
    (refs : List IndexCollectionRef) (limit : ℕ)
    → 1 ≤ length refs
    → 1 ≤ limit
    → let k = length (next_index_audit_batch refs (pos limit)) in
      ((k ≡ limit) × (limit < first_run refs))
      ⊎ ((is_split k refs ≡ false) × ((k ≡ length refs) ⊎ (limit < k + first_run (drop k refs))))
next_index_audit_batch-Whole refs limit h l =
    let b = select_databases_lem (length refs) 0 refs limit (omega arith) (omega arith) l in
    let k = selection refs limit in
    let e : length (take k refs) ≡ k = omega (arith, length-take k refs, b) in
    rw (next_of_selection refs limit h l, e)
      (Whole-of k refs limit
        (select_databases-Whole (length refs) 0 refs limit (omega arith) (omega arith) l))
