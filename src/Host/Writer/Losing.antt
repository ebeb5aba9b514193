-- ===== src/Host/Writer/Losing.antt =====
-- What is queued, and which loss is the run's, over interleavings of the two threads.
use augusta.Common.{
  ℕ, ◌+◌, ◌≤◌, ◌<◌, ◌≡◌, ◌⊎◌, ◌∙◌, ◌≢◌, refl, sym, ap, Bool, not, ◌&&◌, none, some, List, [], ◌∷◌,
  ◌++◌, ◌==◌, keep_if, arith, inr,
}
use augusta.Failure.{Failure}
use augusta.Host.Losses.{
  CaptureMode, CaptureHealth, enabled, degraded, stopped, CaptureStep, queue_full,
}
use augusta.Host.Retention.{CaptureDirectory, u64_mod}
use augusta.Host.Writer.{
  Writer, make_writer, on_queued, Item, open_kind, record_kind, close_kind, Failed, Phase, waiting,
  taken, carried_out, Disk, Step, begins, opens, closes, pushes, stops, finishes, takes, carries,
  settles, is_record, count_records, enter, lose_locked, stop_locked, push, begin, open_match_file,
  close, stop_captures_locked, finish, take_front, take_next, write_piece, persist, open_file,
  close_file, handle, handle_guarded, carry_out, settle_loss, settle, step, run,
}

-- How far a run's captures are in their one-way life.
abbrev pub rank : CaptureHealth → ℕ
rank enabled = 0
rank degraded = 1
rank stopped = 2

-- Nothing of the health and the loss changes but forward.
pub record Forward (before after : Writer) : Type 0 where
  pub rising : rank before.health ≤ rank after.health
  pub kept : (before.loss ≡ none) ⊎ (after.loss ≡ before.loss)

Forward-same : (a b : Writer) → b.health ≡ a.health → b.loss ≡ a.loss → Forward a b
Forward-same a b h l = record { rising = ground arith; kept = inr l }

Forward-trans : (a b c : Writer) → Forward a b → Forward b c → Forward a c
Forward-trans a b c f g = record {
  rising = omega (arith, f.rising, g.rising);
  kept = ground (arith, f.kept, g.kept);
}

-- While captures are enabled none is lost; once one is, they are not.
pub record Sound (w : Writer) : Type 0 where
  pub unlost : w.health ≡ enabled → w.loss ≡ none

module _ (id_text : ℕ → List ℕ) where
  lose_locked-Forward :
      (w : Writer) (m : ℕ) (why : CaptureStep) (detail : List ℕ)
      → Sound w
      → Forward w (lose_locked id_text w m why detail) × Sound (lose_locked id_text w m why detail)
  unfolding lose_locked enter
  lose_locked-Forward w m why detail s = ground (arith, s.unlost)

  stop_locked-Forward :
      (w : Writer) (m : ℕ) (why : CaptureStep) (detail : List ℕ)
      → Sound w
      → Forward w (stop_locked id_text w m why detail) × Sound (stop_locked id_text w m why detail)
  unfolding stop_locked lose_locked enter
  stop_locked-Forward w m why detail s = ground (arith, s.unlost)

  push-Forward :
      (w : Writer) (m : ℕ) (encoded : List ℕ)
      → Sound w
      → Forward w (push id_text w m encoded) × Sound (push id_text w m encoded)
  unfolding push
  push-Forward w m encoded s = ground (arith, s.unlost, stop_locked-Forward w m)

  settle-Forward : (w : Writer) → Sound w → Forward w (settle id_text w) × Sound (settle id_text w)
  unfolding settle settle_loss stop_locked lose_locked enter
  settle-Forward w s = ground (arith, s.unlost)

-- What carrying an item out leaves alone.
record Apart (before after : Writer) : Type 0 where
  pub health : after.health ≡ before.health
  pub loss : after.loss ≡ before.loss
  pub queue : after.queue ≡ before.queue
  pub records_queued : after.records_queued ≡ before.records_queued
  pub capacity : after.capacity ≡ before.capacity

write_piece-Apart : (d : Disk) (w : Writer) (encoded : List ℕ) → Apart w (write_piece d w encoded).0
unfolding write_piece
write_piece-Apart d w encoded = ground arith

handle_guarded-Apart : (d : Disk) (w : Writer) (item : Item) → Apart w (handle_guarded d w item).0
unfolding handle_guarded handle open_file persist close_file write_piece
handle_guarded-Apart d w item = ground arith

module _ (id_text : ℕ → List ℕ) where
  step-Forward :
      (w : Writer) (s : Step) → Sound w → Forward w (step id_text w s) × Sound (step id_text w s)
  unfolding step begin open_match_file close finish stop_captures_locked enter take_next carry_out
  step-Forward w (begins m) s = ground (arith, s.unlost)
  step-Forward w (opens m path header) s = ground (arith, s.unlost)
  step-Forward w (closes m) s = ground (arith, s.unlost)
  step-Forward w (pushes m encoded) s = push-Forward id_text w m encoded s
  step-Forward w (stops m why) s = stop_locked-Forward id_text w m why [] s
  step-Forward w finishes s = ground (arith, s.unlost)
  step-Forward w takes s = ground (arith, s.unlost)
  step-Forward w (carries d) s = ground (arith, s.unlost, handle_guarded-Apart d w)
  step-Forward w settles s = settle-Forward id_text w s

  run-Forward :
      (w : Writer) (ss : List Step)
      → Sound w
      → Forward w (run id_text w ss) × Sound (run id_text w ss)
  unfolding run
  run-Forward w [] s = (Forward-same w w refl refl, s)
  run-Forward w (t ∷ ss) s =
      let one = step-Forward w t s in
      let rest = run-Forward (step id_text w t) ss one.1 in
      (Forward-trans w (step id_text w t) (run id_text w (t ∷ ss)) one.0 rest.0, rest.1)

-- What is queued of records is counted, and no more than the capacity.
pub record Counted (w : Writer) : Type 0 where
  pub sized : w.capacity < u64_mod
  pub counted : w.records_queued ≡ count_records w.queue
  pub bounded : w.records_queued ≤ w.capacity

count_records-append :
    (xs ys : List Item) → count_records (xs ++ ys) ≡ count_records xs + count_records ys
count_records-append [] ys = omega arith
count_records-append (x ∷ xs) ys = ground (arith, count_records-append xs ys)

count_records-keep_if :
    (p : Item → Bool) (xs : List Item) → count_records (keep_if p xs) ≤ count_records xs
count_records-keep_if p [] = omega arith
count_records-keep_if p (x ∷ xs) = ground (arith, count_records-keep_if p xs)

take_front-Counted :
    (w : Writer) (items : List Item) → w.queue ≡ items → Counted w → Counted (take_front w items)
take_front-Counted w [] e c = c
take_front-Counted w (x ∷ xs) e c = ground (arith, c.sized, c.counted, c.bounded)

module _ (id_text : ℕ → List ℕ) where
  stop_locked-Apart :
      (w : Writer) (m : ℕ) (why : CaptureStep) (detail : List ℕ)
      → let after = stop_locked id_text w m why detail in
        (after.queue ≡ w.queue)
        × (after.records_queued ≡ w.records_queued)
        × (after.capacity ≡ w.capacity)
  unfolding stop_locked lose_locked enter
  stop_locked-Apart w m why detail = ground arith

  settle_loss-Counted :
      (w : Writer) (item : Item) (lost : Failed)
      → Counted w
      → Counted (settle_loss id_text w item lost)
  unfolding settle_loss
  settle_loss-Counted w item lost c =
      let other : Item → Bool = λ q. not (is_record q && q.match_id == item.match_id) in
      let left = keep_if other w.queue in
      let queued = count_records left in
      let inner : Writer = record w {
        queue = left;
        records_queued = queued;
        phase = waiting;
        told = w.told ++ on_queued queued ∷ [];
      } in
      let apart = stop_locked-Apart inner item.match_id lost.step lost.detail in
      let fewer = count_records-keep_if other w.queue in
      record {
        sized = omega (arith, apart.2, c.sized);
        counted = apart.1 ∙ ap count_records (sym apart.0);
        bounded = omega (arith, apart.1, apart.2, fewer, c.counted, c.bounded);
      }

  settle-Counted : (w : Writer) (p : Phase) → w.phase ≡ p → Counted w → Counted (settle id_text w)
  unfolding settle
  settle-Counted w waiting e c = rw (e, settle) c
  settle-Counted w (taken item) e c = rw (e, settle) c
  settle-Counted w (carried_out item none) e c =
      rw (e, settle) (record { sized = c.sized; counted = c.counted; bounded = c.bounded })
  settle-Counted w (carried_out item (some lost)) e c =
      rw (e, settle) (settle_loss-Counted w item lost c)

  step-Counted : (w : Writer) (s : Step) → Counted w → Counted (step id_text w s)
  unfolding step begin open_match_file close push finish stop_captures_locked enter take_next
      carry_out settle settle_loss
  step-Counted w (begins m) c = ground (arith, c.sized, c.counted, c.bounded)
  step-Counted w (opens m path header) c =
      let item : Item = record { kind = open_kind; match_id = m; encoded = header; path = path } in
      ground (arith, c.sized, c.counted, c.bounded, count_records-append w.queue (item ∷ []))
  step-Counted w (closes m) c =
      let item : Item = record { kind = close_kind; match_id = m; encoded = []; path = [] } in
      ground (arith, c.sized, c.counted, c.bounded, count_records-append w.queue (item ∷ []))
  step-Counted w (pushes m encoded) c =
      let item : Item = record { kind = record_kind; match_id = m; encoded = encoded; path = [] } in
      ground (
        arith,
        c.sized,
        c.counted,
        c.bounded,
        count_records-append w.queue (item ∷ []),
        stop_locked-Apart w m queue_full [],
      )
  step-Counted w (stops m why) c =
      ground (arith, c.sized, c.counted, c.bounded, stop_locked-Apart w m why [])
  step-Counted w finishes c = ground (arith, c.sized, c.counted, c.bounded)
  step-Counted w takes c =
      ground (arith, take_front-Counted w w.queue refl c, c.sized, c.counted, c.bounded)
  step-Counted w (carries d) c =
      ground (arith, c.sized, c.counted, c.bounded, handle_guarded-Apart d w)
  step-Counted w settles c = settle-Counted w w.phase refl c

  run-Counted : (w : Writer) (ss : List Step) → Counted w → Counted (run id_text w ss)
  unfolding run
  run-Counted w [] c = c
  run-Counted w (t ∷ ss) c = run-Counted (step id_text w t) ss (step-Counted w t c)

  -- Over any interleaving of the two threads from a new writer whose capacity fits 64 bits,
  -- whatever the disk answers, the count of records queued is the number of them in the queue, and
  -- at most the capacity; and captures that are enabled have lost nothing.
  pub run-make_writer :
      (mode : CaptureMode) (capacity : ℕ) (directory : CaptureDirectory) (ss : List Step)
      → capacity < u64_mod
      → let w = run id_text (make_writer mode capacity directory) ss in Counted w × Sound w
  unfolding make_writer enter
  run-make_writer mode capacity directory ss h =
      let fresh = make_writer mode capacity directory in
      (run-Counted fresh ss (ground arith), (run-Forward id_text fresh ss (ground arith)).1)

  -- Where captures that are enabled have lost nothing, the first loss of a run stays the run's
  -- through any interleaving of the two threads, whatever the disk answers, the health never goes
  -- back, and captures are not enabled again.
  pub loss_kept :
      (w : Writer) (ss : List Step) (f : Failure)
      → Sound w
      → w.loss ≡ some f
      → let after = run id_text w ss in
        (after.loss ≡ some f) × (rank w.health ≤ rank after.health) × (after.health ≢ enabled)
  loss_kept w ss f s lost =
      let forward = run-Forward id_text w ss s in
      let kept : (run id_text w ss).loss ≡ some f = ground (arith, forward.0.kept) in
      (kept, forward.0.rising, λ still. ground (arith, forward.1.unlost still))
