-- ===== src/Host/Retention/Room.antt =====
-- MakeRoom's loop and its fuel, against a single plan, and Reserve.
use mathlib.Core.Path.{subst}
use native.Mathlib.Numerals.{add-one}
use augusta.Common.{
  ℕ, zero, suc, ◌+◌, ◌-◌, ◌%◌, ◌≤◌, ◌<◌, ◌≡◌, refl, ap, ◌∙◌, Bool, true, false, some, List, [], ◌∷◌,
  leb, ◌==◌, if◌then◌else◌, length, drop, arith, inl, inr, Bool-cases, ==-suc_zero,
}
use augusta.Host.Retention.{
  CompletedCapture, CaptureRetention, CaptureDirectory, remaining, u64_mod, plan_retention,
  delete_oldest, delete_of, plan_of, make_room_fuel, make_room, reserve, reserved,
}
use augusta.Host.Retention.Plan.{
  left_after, left_after-le, bytes_ok, enough, fewest, plan_retention_lem,
}

drop-next :
    (n : ℕ) (xs cs : List CompletedCapture) (c : CompletedCapture)
    → drop n xs ≡ c ∷ cs
    → drop (suc n) xs ≡ cs
drop-next zero [] cs c e = cc
drop-next zero (x ∷ xs) cs c e = cc
drop-next (suc n) [] cs c e = cc
drop-next (suc n) (x ∷ xs) cs c e = drop-next n xs cs c e

left_after-nil : (n total : ℕ) → left_after n [] total ≡ left_after (suc n) [] total
left_after-nil zero total = refl
left_after-nil (suc n) total = refl

plan_of_lem :
    (d : CaptureDirectory) (opening : Bool) (bytes : ℕ) (cs : List CompletedCapture)
    → remaining d ≡ cs
    → d.total + bytes < u64_mod
    → let n = fewest opening d.retention bytes cs d.total in
      plan_of d opening bytes ≡ record {
        deletions = n;
        fits = bytes_ok d.retention.max_bytes bytes (left_after n cs d.total);
      }
unfolding plan_of
plan_of_lem d opening bytes cs e w =
    ap (λ xs. plan_retention xs d.total opening bytes d.retention) e
    ∙ plan_retention_lem cs d.total opening bytes d.retention w

module _ (opening : Bool) (r : CaptureRetention) (bytes : ℕ) (c : CompletedCapture)
    (cs : List CompletedCapture) (total : ℕ) where
  fewest-done :
      enough opening r bytes (c ∷ cs) total 0 ≡ true → fewest opening r bytes (c ∷ cs) total ≡ 0
  unfolding fewest
  fewest-done h = rw h

  fewest-more :
      enough opening r bytes (c ∷ cs) total 0 ≡ false
      → fewest opening r bytes (c ∷ cs) total ≡ suc (fewest opening r bytes cs (total - c.size))
  unfolding fewest
  fewest-more h = rw h

module _ (removes : CompletedCapture → Bool) where
  -- The oldest `n` deleted, one after another.
  pub delete_many : ℕ → CaptureDirectory → CaptureDirectory
  delete_many zero d = d
  delete_many (suc n) d = delete_many n (delete_oldest removes d)

  -- What a deletion leaves.
  record Deleted (d k : CaptureDirectory) (c : CompletedCapture) (cs : List CompletedCapture)
      : Type 0 where
    rest : remaining k ≡ cs
    total : k.total ≡ d.total - c.size
    kept : k.retention ≡ d.retention

  delete_oldest-Deleted :
      (d : CaptureDirectory) (c : CompletedCapture) (cs : List CompletedCapture)
      → remaining d ≡ c ∷ cs
      → Deleted d (delete_oldest removes d) c cs
  unfolding delete_oldest
  delete_oldest-Deleted d c cs e =
      let made : delete_oldest removes d ≡ delete_of removes d (c ∷ cs) =
        ap (delete_of removes d) e in
      let next : drop (d.deleted + 1) d.completed ≡ cs =
        rw add-one (drop-next d.deleted d.completed cs c e) in
      rw made (record { rest = next; total = refl; kept = refl })

  -- One round of the loop, given what is planned.
  make_room_round :
      (fuel : ℕ) (d : CaptureDirectory) (opening : Bool) (bytes n : ℕ) (fits : Bool)
      → plan_of d opening bytes ≡ record { deletions = n; fits = fits }
      → make_room_fuel removes (suc fuel) d opening bytes ≡ (
          if n == 0
          then some (d, fits)
          else make_room_fuel removes fuel (delete_oldest removes d) opening bytes)
  unfolding make_room_fuel
  make_room_round fuel d opening bytes n fits h = rw h refl

  make_room_lem :
      (opening : Bool) (bytes fuel : ℕ) (d : CaptureDirectory) (cs : List CompletedCapture)
      → remaining d ≡ cs
      → length cs < fuel
      → d.total + bytes < u64_mod
      → let n = fewest opening d.retention bytes cs d.total in
        make_room_fuel removes fuel d opening bytes
        ≡ some (delete_many n d, bytes_ok d.retention.max_bytes bytes (left_after n cs d.total))
  unfolding delete_many
  make_room_lem opening bytes zero d cs e h w = absurd (omega arith)
  make_room_lem opening bytes (suc fuel) d [] e h w =
      make_room_round fuel d opening bytes _ _ (plan_of_lem d opening bytes [] e w)
      ∙ unfold fewest in refl
  make_room_lem opening bytes (suc fuel) d (c ∷ cs) e h w =
      let plan = plan_of_lem d opening bytes (c ∷ cs) e w in
      elim (Bool-cases (enough opening d.retention bytes (c ∷ cs) d.total 0)) [
        | inl done ↦
            make_room_round fuel d opening bytes _ _ plan
            ∙ rw (fewest-done opening d.retention bytes c cs d.total done)
        | inr more ↦
            let del = delete_oldest-Deleted d c cs e in
            let rec =
              make_room_lem opening bytes fuel (delete_oldest removes d) cs del.rest (omega arith)
                (omega (arith, del.total)) in
            make_room_round fuel d opening bytes _ _ plan
            ∙ rw (fewest-more opening d.retention bytes c cs d.total more, ==-suc_zero)
                (simp (del.total, del.kept) at rec)
      ]

  -- Where the total with the bytes to come fits 64 bits, make_room never runs out of its fuel, and
  -- deletes one by one just what a single plan_retention says, answering as it does, whether or not
  -- each file can be removed.
  pub make_room-total :
      (d : CaptureDirectory) (opening : Bool) (bytes : ℕ)
      → d.total + bytes < u64_mod
      → let plan = plan_retention (remaining d) d.total opening bytes d.retention in
        make_room removes d opening bytes ≡ some (delete_many plan.deletions d, plan.fits)
  unfolding make_room
  make_room-total d opening bytes w =
      make_room_lem opening bytes (suc (length (remaining d))) d (remaining d) refl (omega arith) w
      ∙ rw (plan_retention_lem (remaining d) d.total opening bytes d.retention w) refl

  delete_many-total :
      (n : ℕ) (d : CaptureDirectory) (cs : List CompletedCapture)
      → remaining d ≡ cs
      → (delete_many n d).total ≡ left_after n cs d.total
  unfolding delete_many
  delete_many-total zero d cs e = refl
  delete_many-total (suc n) d [] e =
      let none_left : delete_oldest removes d ≡ d =
        unfold delete_oldest in ap (delete_of removes d) e in
      ap (λ k. (delete_many n k).total) none_left
      ∙ delete_many-total n d [] e
      ∙ left_after-nil n d.total
  delete_many-total (suc n) d (c ∷ cs) e =
      let del = delete_oldest-Deleted d c cs e in
      delete_many-total n (delete_oldest removes d) cs del.rest ∙ ap (left_after n cs) del.total

  reserved-true :
      (bytes : ℕ) (d : CaptureDirectory) (fits : Bool) (k : CaptureDirectory)
      → some (reserved removes bytes (d, fits)) ≡ some (k, true)
      → (fits ≡ true) × (k.total ≡ (d.total + bytes) % u64_mod)
  reserved-true bytes d true k h = ground arith
  reserved-true bytes d false k h = cc

  -- After a reserve that succeeds, the total is within the directory's limit of bytes, where the
  -- total with the bytes to come fits 64 bits.
  pub reserve-total :
      (d : CaptureDirectory) (bytes max : ℕ) (k : CaptureDirectory)
      → d.total + bytes < u64_mod
      → d.retention.max_bytes ≡ some max
      → reserve removes d bytes ≡ some (k, true)
      → k.total ≤ max
  unfolding reserve make_room
  reserve-total d bytes max k w limit h =
      let made =
        make_room_lem false bytes (suc (length (remaining d))) d (remaining d) refl (omega arith)
          w in
      let n = fewest false d.retention bytes (remaining d) d.total in
      let done = reserved-true bytes (delete_many n d) _ k (rw made at h) in
      let left = delete_many-total n d (remaining d) refl in
      let fits : leb (left_after n (remaining d) d.total + bytes) max ≡ true =
        subst (λ mb. bytes_ok mb bytes (left_after n (remaining d) d.total) ≡ true) limit done.0 in
      ground (arith, left, done.1, fits, left_after-le n (remaining d) d.total)
