-- ===== src/Host/Writer.antt =====
-- src/modules/host/capture_writer.cpp and its header: the queue that the Simulation thread hands each
-- Match's file to, and the thread that writes it. Both threads' steps interleave as they will: a call
-- of the Simulation thread is one step, since it runs under the lock, and the writer's loop is three:
-- it takes an item under the lock, carries it out without it, and settles the outcome under it. The
-- disk and the faults injected answer each item as they will (Disk). What is on disk is the pieces
-- written whole, by Match; what a failed write left of its piece is not in it. An exception is one
-- that escapes Handle where it begins. The log lines are left out, and a Match ID of 0 is nil.
pub mod Losing
mod Examples
use augusta.Common.{
  ℕ, zero, suc, ◌+◌, ◌%◌, Bool, true, false, not, ◌&&◌, ◌||◌, ◌-◌, Option, none, some, List, [],
  ◌∷◌, ◌++◌, leb, ◌==◌, if◌then◌else◌, length, keep_if, any_of, is_empty, lookup, assign,
}
use augusta.Failure.{Failure}
use augusta.Host.Losses.{
  CaptureStop, CaptureMode, optional, strict, CaptureHealth, enabled, degraded, stopped,
  CaptureStep, create, write, flush, queue_full, retention_budget, CaptureState, idle, capturing,
  capture_stopped, stop_at, lost_capture,
}
use augusta.Host.Retention.{CaptureDirectory, CompletedCapture, open_capture, reserve, u64_mod}

pub data Kind : Type 0 where
  open_kind record_kind close_kind : Kind

-- The bytes of an Encoded, and of a path's name.
pub record Item : Type 0 where
  pub kind : Kind
  pub match_id : ℕ
  pub encoded : List ℕ
  pub path : List ℕ

-- Failed.
pub record Failed : Type 0 where
  pub step : CaptureStep
  pub detail : List ℕ

-- What the observer is told.
pub data Report : Type 0 where
  on_state : CaptureState → Report
  on_health : CaptureHealth → Report
  on_queued : ℕ → Report
  on_started : Report
  on_written : ℕ → Report
  on_completed : Report
  on_stopped : CaptureStop → Report

-- Where the writer's loop is: waiting, with an item to carry out, or with its outcome to settle.
pub data Phase : Type 0 where
  waiting : Phase
  taken : Item → Phase
  carried_out : Item → Option Failed → Phase

pub record Writer : Type 0 where
  pub mode : CaptureMode
  pub capacity : ℕ
  pub directory : CaptureDirectory
  pub queue : List Item
  pub records_queued : ℕ
  pub stopped_matches : List ℕ
  pub open_match : ℕ
  pub phase : Phase
  pub health : CaptureHealth
  pub loss : Option Failure
  pub file_good : Bool
  pub file_match : ℕ
  pub path : List ℕ
  pub records : ℕ
  pub disk : List (ℕ × List (List ℕ))
  pub told : List Report

abbrev pub tell : Writer → Report → Writer
tell w r = record w { told = w.told ++ r ∷ [] }

unfoldable pub enter : Writer → CaptureHealth → Writer
enter w health = tell (record w { health = health }) (on_health health)

unfoldable pub make_writer : CaptureMode → ℕ → CaptureDirectory → Writer
unfolding enter
make_writer mode capacity directory =
    enter
      (record {
        mode = mode;
        capacity = capacity;
        directory = directory;
        queue = [];
        records_queued = 0;
        stopped_matches = [];
        open_match = 0;
        phase = waiting;
        health = enabled;
        loss = none;
        file_good = true;
        file_match = 0;
        path = [];
        records = 0;
        disk = [];
        told = on_state idle ∷ [];
      })
      enabled

abbrev pub is_record : Item → Bool
is_record item = elim item.kind [ record_kind ↦ true | _ ↦ false ]

abbrev pub count_records : List Item → ℕ
count_records queue = length (keep_if is_record queue)

abbrev pub contains : List ℕ → ℕ → Bool
contains matches match_id = any_of (λ m. m == match_id) matches

abbrev pub is_stopped : CaptureHealth → Bool
is_stopped stopped = true
is_stopped _ = false

-- LoseLocked past its test, by the mode.
abbrev lose : CaptureMode → Writer → Writer
lose optional w = enter w degraded
lose strict w = enter w stopped

module _ (id_text : ℕ → List ℕ) where
  unfoldable pub lose_locked : Writer → ℕ → CaptureStep → List ℕ → Writer
  unfolding enter lost_capture
  lose_locked w match_id step detail = elim w.health [
    | enabled ↦
        lose w.mode (record w { loss = some (lost_capture id_text w.mode match_id step detail) })
    | degraded ↦ w
    | stopped ↦ w
  ]

  unfoldable pub stop_locked : Writer → ℕ → CaptureStep → List ℕ → Writer
  unfolding lose_locked stop_at
  stop_locked w match_id step detail =
      let marked =
        tell (record w { stopped_matches = match_id ∷ w.stopped_matches })
          (on_stopped (stop_at step)) in
      let stated =
        if match_id == w.open_match then tell marked (on_state capture_stopped) else marked in
      if contains w.stopped_matches match_id then w else lose_locked stated match_id step detail

  -- Push.
  unfoldable pub push : Writer → ℕ → List ℕ → Writer
  unfolding stop_locked
  push w match_id encoded =
      let queued = w.records_queued + 1 in
      let item : Item = record {
        kind = record_kind;
        match_id = match_id;
        encoded = encoded;
        path = [];
      } in
      if contains w.stopped_matches match_id || is_stopped w.health
      then w
      else if leb w.capacity w.records_queued
      then stop_locked w match_id queue_full []
      else record w {
        records_queued = queued;
        queue = w.queue ++ item ∷ [];
        told = w.told ++ on_queued queued ∷ [];
      }

-- Begin.
unfoldable pub begin : Writer → ℕ → Writer
begin w match_id = tell (record w { open_match = match_id }) (on_state capturing)

-- Open, by Enqueue.
unfoldable pub open_match_file : Writer → ℕ → List ℕ → List ℕ → Writer
open_match_file w match_id path header =
    let item : Item = record {
      kind = open_kind;
      match_id = match_id;
      encoded = header;
      path = path;
    } in
    record w { queue = w.queue ++ item ∷ [] }

-- Close.
unfoldable pub close : Writer → ℕ → Writer
close w match_id =
    let item : Item = record { kind = close_kind; match_id = match_id; encoded = []; path = [] } in
    let queued = record w { queue = w.queue ++ item ∷ [] } in
    if w.open_match == match_id
    then tell (record queued { open_match = 0 }) (on_state idle)
    else queued

unfoldable pub stop_captures_locked : Writer → Writer
unfolding enter
stop_captures_locked w = if is_stopped w.health then w else enter w stopped

-- What WaitUntilWritten waits for.
abbrev pub is_written : Writer → Bool
is_written w = is_empty w.queue && elim w.phase [ waiting ↦ true | _ ↦ false ]

-- Finish: where there is still something to write, it waits, and changes nothing.
unfoldable pub finish : Writer → Writer
unfolding stop_captures_locked
finish w = if is_written w then stop_captures_locked w else w

-- Run's loop: an item is taken off a queue that is not empty.
abbrev take_item : Writer → Item → List Item → Writer
take_item w item rest =
    let left = record w { queue = rest; phase = taken item } in
    let queued = (w.records_queued + (u64_mod - 1)) % u64_mod in
    if is_record item
    then tell (record left { records_queued = queued }) (on_queued queued)
    else left

abbrev take_front : Writer → List Item → Writer
take_front w [] = w
take_front w (item ∷ rest) = take_item w item rest

unfoldable pub take_next : Writer → Writer
take_next w = elim w.phase [ waiting ↦ take_front w w.queue | _ ↦ w ]

-- What the disk and the faults injected answer to one item.
pub record Disk : Type 0 where
  pub found : List CompletedCapture
  pub removes : CompletedCapture → Bool
  pub created : Bool
  pub write_fault : Option (List ℕ)
  pub wrote : Bool
  pub flush_fault : Option (List ℕ)
  pub flushed : Bool
  pub thrown : Option (List ℕ)

abbrev pub failed : Writer → CaptureStep → List ℕ → Writer × Option Failed
failed w step detail = (w, some (record { step = step; detail = detail }))

abbrev bad_file : Writer → Writer
bad_file w = record w { file_good = false }

-- The pieces of a Match's file.
abbrev pub written : List (ℕ × List (List ℕ)) → ℕ → List (List ℕ)
written disk match_id = elim (lookup match_id disk) [ none ↦ [] | some pieces ↦ pieces ]

abbrev flush_piece : Disk → Writer → List ℕ → Writer × Option Failed
flush_piece d w encoded = elim d.flush_fault [
  | some fault ↦ failed (bad_file w) flush fault
  | none ↦
      if d.flushed
      then (
        record w {
          records = w.records + 1;
          told = w.told ++ on_written (length encoded) ∷ [];
          disk = assign w.file_match (written w.disk w.file_match ++ encoded ∷ []) w.disk;
        },
        none,
      )
      else failed (bad_file w) flush w.path
]

-- Write.
unfoldable pub write_piece : Disk → Writer → List ℕ → Writer × Option Failed
write_piece d w encoded = elim d.write_fault [
  | some fault ↦ failed (bad_file w) write fault
  | none ↦
      if w.file_good && d.wrote then flush_piece d w encoded else failed (bad_file w) write w.path
]

-- Persist, by what Reserve left.
unfoldable pub persist : Disk → Writer → List ℕ → Writer × Option Failed
unfolding write_piece
persist d w encoded = elim (reserve d.removes w.directory (length encoded)) [
  | none ↦ failed w retention_budget []
  | some (directory, room) ↦
      let reserved = record w { directory = directory } in
      if room then write_piece d reserved encoded else failed reserved retention_budget []
]

-- OpenFile past the directory's answer. The file is created empty.
abbrev create_file : Disk → Writer → Item → Writer × Option Failed
create_file d w item =
    let created = record w {
      file_good = true;
      file_match = item.match_id;
      path = item.path;
      records = 0;
      disk = assign item.match_id [] w.disk;
      told = w.told ++ on_started ∷ [];
    } in
    if d.created then write_piece d created item.encoded else failed (bad_file w) create item.path

-- OpenFile.
unfoldable pub open_file : Disk → Writer → Item → Writer × Option Failed
unfolding write_piece
open_file d w item =
    elim (open_capture d.removes w.directory item.match_id d.found (length item.encoded)) [
      | none ↦ failed w retention_budget []
      | some (directory, room) ↦
          let reserved = record w { directory = directory } in
          if room then create_file d reserved item else failed reserved retention_budget []
    ]

-- CloseFile.
unfoldable pub close_file : Writer → ℕ → Writer
close_file w match_id =
    let forgotten = record w {
      stopped_matches = keep_if (λ m. not (m == match_id)) w.stopped_matches;
    } in
    let closed = record forgotten { file_match = 0 } in
    if not (w.file_match == match_id)
    then forgotten
    else if contains w.stopped_matches match_id
    then closed
    else tell closed on_completed

-- Handle.
unfoldable pub handle : Disk → Writer → Item → Writer × Option Failed
unfolding open_file persist close_file
handle d w item = elim item.kind [
  | open_kind ↦ open_file d w item
  | record_kind ↦ if w.file_match == item.match_id then persist d w item.encoded else (w, none)
  | close_kind ↦ (close_file w item.match_id, none)
]

-- HandleGuarded.
unfoldable pub handle_guarded : Disk → Writer → Item → Writer × Option Failed
unfolding handle
handle_guarded d w item = elim d.thrown [
  | some detail ↦ failed w write detail
  | none ↦ handle d w item
]

unfoldable pub carry_out : Disk → Writer → Writer
unfolding handle_guarded
carry_out d w = elim w.phase [
  | taken item ↦
      let done = handle_guarded d w item in record done.0 { phase = carried_out item done.1 }
  | _ ↦ w
]

pub data Step : Type 0 where
  begins : ℕ → Step
  opens : ℕ → List ℕ → List ℕ → Step
  closes : ℕ → Step
  pushes : ℕ → List ℕ → Step
  stops : ℕ → CaptureStep → Step
  finishes : Step
  takes : Step
  carries : Disk → Step
  settles : Step

module _ (id_text : ℕ → List ℕ) where
  -- A loss, under the lock again: what is queued of its Match's records is dropped.
  unfoldable pub settle_loss : Writer → Item → Failed → Writer
  unfolding stop_locked
  settle_loss w item lost =
      let left = keep_if (λ q. not (is_record q && q.match_id == item.match_id)) w.queue in
      let queued = count_records left in
      stop_locked id_text
        (record w {
          queue = left;
          records_queued = queued;
          phase = waiting;
          told = w.told ++ on_queued queued ∷ [];
        })
        item.match_id lost.step lost.detail

  unfoldable pub settle : Writer → Writer
  unfolding settle_loss
  settle w = elim w.phase [
    | carried_out item none ↦ record w { phase = waiting }
    | carried_out item (some lost) ↦ settle_loss w item lost
    | _ ↦ w
  ]

  unfoldable pub step : Writer → Step → Writer
  unfolding begin open_match_file close push stop_locked finish take_next carry_out settle
  step w (begins match_id) = begin w match_id
  step w (opens match_id path header) = open_match_file w match_id path header
  step w (closes match_id) = close w match_id
  step w (pushes match_id encoded) = push id_text w match_id encoded
  step w (stops match_id why) = stop_locked id_text w match_id why []
  step w finishes = finish w
  step w takes = take_next w
  step w (carries d) = carry_out d w
  step w settles = settle w

  unfoldable pub run : Writer → List Step → Writer
  unfolding step
  run w [] = w
  run w (s ∷ ss) = run (step w s) ss
