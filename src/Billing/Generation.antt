-- ===== src/Billing/Generation.antt =====
-- The loop of `generate_batch` in vouchers.py ends, and what it leaves.
use infinity_radius.Prelude.{
  ℕ, zero, suc, ◌+◌, ◌-◌, ◌*◌, ◌≤◌, ◌<◌, Bool, true, false, ◌&&◌, Option, some, [], ◌∷◌, ◌≡◌, refl,
  ◌∙◌, ap, arith, ltb, ◌==◌, Dict, lookup, insert, Text, eq_text, Bool-cases, inl, inr, subst,
  eq_text→eq, ◌⊎◌, ltb→lt, lookup-insert_self,
}
use infinity_radius.Billing.Tables.{
  OfflineVoucher, Billing, VoucherBatch, log_billing, batch_generated,
}
use infinity_radius.Billing.Vouchers.{
  generate_code, has_code, exists_by_code, new_voucher, Generation, Draw, try_code, generate_codes,
  max_attempts_of, finish_batch, fill_batch, generate_batch, new_batch,
}
use infinity_radius.Billing.Counting.{count_rows, one_if, count_rows-insert}
use infinity_radius.Core.Errors.{Result, ApiError, err, ok, validation, codes_exhausted}

-- The vouchers of a tenant that have a code.
abbrev pub holders : ℕ → Text → Dict OfflineVoucher → ℕ
holders t code d = count_rows (has_code t code) d

-- What the loop keeps: the bounds of its variables, and no code twice.
pub record IsOrderly (t quantity most : ℕ) (g : Generation) : Type 0 where
  pub created_bound : g.created ≤ quantity
  pub attempts_bound : g.attempts ≤ most
  pub created_attempts : g.created ≤ g.attempts
  pub codes_once : (code : Text) → holders t code g.vouchers ≤ 1

absent-holders :
    (t : ℕ) (code : Text) (d : Dict OfflineVoucher)
    → exists_by_code t code d ≡ false
    → holders t code d ≡ 0
unfolding exists_by_code count_rows one_if
absent-holders t code [] h = refl
absent-holders t code ((k, v) ∷ d) h = ground (arith, absent-holders t code d)

one_if-le : (b : Bool) → one_if b ≤ 1
unfolding one_if
one_if-le true = omega arith
one_if-le false = omega arith

both_false : (a b : Bool) → b ≡ false → (a && b) ≡ false
both_false true b h = h
both_false false b h = refl

-- A voucher under a code that nobody has.
insert-holders :
    (t batch id : ℕ) (code other : Text) (d : Dict OfflineVoucher)
    → exists_by_code t code d ≡ false
    → ((c : Text) → holders t c d ≤ 1)
    → holders t other (insert id (new_voucher t batch id code) d) ≤ 1
unfolding has_code one_if
insert-holders t batch id code other d h k =
    let e = count_rows-insert (has_code t other) id (new_voucher t batch id code) d in
    elim (Bool-cases (eq_text code other)) [
      | inl y ↦
          let z =
            absent-holders t other d
              (subst (λ c. exists_by_code t c d ≡ false) (eq_text→eq code other y) h) in
          let m = one_if-le (has_code t other (new_voucher t batch id code)) in omega arith
      | inr n ↦
          let m = ap one_if (both_false (t == t) (eq_text code other) n) in
          let z = k other in omega arith
    ]

try_code-IsOrderly :
    (t batch quantity most : ℕ) (prefix : Option Text) (draw : ℕ → Draw) (g : Generation)
    → IsOrderly t quantity most g
    → g.created < quantity
    → g.attempts < most
    → IsOrderly t quantity most (try_code t batch prefix draw g)
      × ((try_code t batch prefix draw g).attempts ≡ g.attempts + 1)
unfolding try_code
try_code-IsOrderly t batch quantity most prefix draw g h p q =
    let d = draw g.attempts in
    let code = generate_code prefix d.body in
    let a = h.created_bound in
    let b = h.attempts_bound in
    let c = h.created_attempts in
    let u = h.codes_once in
    elim (Bool-cases (exists_by_code t code g.vouchers)) [
      | inl y ↦ rw (y) (
        record {
          created_bound = a;
          attempts_bound = omega arith;
          created_attempts = omega arith;
          codes_once = u;
        },
        refl,
      )
      | inr n ↦ rw (n) (
        record {
          created_bound = omega arith;
          attempts_bound = omega arith;
          created_attempts = omega arith;
          codes_once = λ other. insert-holders t batch d.id code other g.vouchers n u;
        },
        refl,
      )
    ]

module _ (t batch quantity most : ℕ) (prefix : Option Text) (draw : ℕ → Draw) where
  -- With fuel for the attempts that are left the loop ends, in order, with all the codes or with
  -- all the attempts made.
  generate_codes_ends :
      (fuel : ℕ) (g : Generation)
      → most - g.attempts < fuel
      → IsOrderly t quantity most g
      → (g' : Generation) × (generate_codes fuel t batch prefix draw quantity most g ≡ some g')
        × IsOrderly t quantity most g'
        × ((g'.created ≡ quantity) ⊎ (g'.attempts ≡ most))
  unfolding generate_codes
  generate_codes_ends zero g m h = absurd (omega arith)
  generate_codes_ends (suc fuel) g m h =
      let a = h.created_bound in
      let b = h.attempts_bound in
      elim (Bool-cases (ltb g.created quantity)) [
        | inr n ↦ (g, rw (n) refl, h, inl (ground arith))
        | inl y ↦ elim (Bool-cases (ltb g.attempts most)) [
          | inr n ↦ (g, rw (y, n) refl, h, inr (ground arith))
          | inl z ↦
              let p = ltb→lt g.created quantity y in
              let q = ltb→lt g.attempts most z in
              let (k, e) = try_code-IsOrderly t batch quantity most prefix draw g h p q in
              let (g', r, o, x) =
                generate_codes_ends fuel (try_code t batch prefix draw g) (omega arith) k in
              (g', rw (y, z) r, o, x)
        ]
      ]

-- What a call that returns gives: an error, or the batch with no code twice.
pub data BatchEnds (t : ℕ) (batch : VoucherBatch) : Result Billing → Type 0 where
  refused : (e : ApiError) → BatchEnds t batch (err e)
  generated :
      (b' : Billing)
      → lookup batch.id b'.batches ≡ some batch
      → ((code : Text) → holders t code b'.vouchers ≤ 1)
      → BatchEnds t batch (ok b')

finish_batch-BatchEnds :
    (t actor quantity most : ℕ) (batch : VoucherBatch) (b : Billing) (g : Generation)
    → IsOrderly t quantity most g
    → (r : Result Billing) × (finish_batch t actor quantity batch b (some g) ≡ some r)
      × BatchEnds t batch r
unfolding finish_batch
finish_batch-BatchEnds t actor quantity most batch b g h =
    let b' : Billing =
      log_billing batch_generated batch.id (some actor)
        (record b { batches = insert batch.id batch b.batches; vouchers = g.vouchers }) in
    elim (Bool-cases (ltb g.created quantity)) [
      | inl y ↦ (err (validation codes_exhausted), rw (y) refl, refused _)
      | inr n ↦ (
        ok b',
        rw (n) refl,
        generated b' (lookup-insert_self batch.id batch b.batches) h.codes_once,
      )
    ]

fill_batch-BatchEnds :
    (fuel t actor id plan quantity : ℕ) (prefix : Option Text) (draw : ℕ → Draw) (b : Billing)
    (checked : Result (Unit {0}))
    → quantity * 5 + 20 < fuel
    → ((code : Text) → holders t code b.vouchers ≤ 1)
    → (r : Result Billing) × (fill_batch fuel t actor id plan quantity prefix draw b checked
        ≡ some r)
      × BatchEnds t (new_batch t actor id plan quantity prefix) r
unfolding fill_batch
fill_batch-BatchEnds fuel t actor id plan quantity prefix draw b (err e) m h =
    (err e, refl, refused e)
fill_batch-BatchEnds fuel t actor id plan quantity prefix draw b (ok _) m h =
    let most = max_attempts_of quantity in
    let start : Generation = record { attempts = 0; created = 0; vouchers = b.vouchers } in
    let (g, e, o, x) =
      generate_codes_ends t id quantity most prefix draw fuel start (omega arith) (record {
        created_bound = omega arith;
        attempts_bound = omega arith;
        created_attempts = omega arith;
        codes_once = h;
      }) in
    let batch = new_batch t actor id plan quantity prefix in
    let (r, f, ends) = finish_batch-BatchEnds t actor quantity most batch b g o in
    (r, ap (finish_batch t actor quantity batch b) e ∙ f, ends)

-- With fuel above quantity * 5 + 20, whatever codes are drawn, generate_batch returns: an error,
-- or tables with the batch row and with no code twice in the tenant, if none was there twice
-- before.
pub generate_batch_returns :
    (fuel t actor id plan quantity : ℕ) (prefix : Option Text) (draw : ℕ → Draw) (b : Billing)
    → quantity * 5 + 20 < fuel
    → ((code : Text) → holders t code b.vouchers ≤ 1)
    → (r : Result Billing) × (generate_batch fuel t actor id plan quantity prefix draw b ≡ some r)
      × BatchEnds t (new_batch t actor id plan quantity prefix) r
unfolding generate_batch
generate_batch_returns fuel t actor id plan quantity prefix draw b m h =
    fill_batch-BatchEnds fuel t actor id plan quantity prefix draw b _ m h
