-- ===== src/Pipeline/Parallel/Run.antt =====
-- One goroutine for each step, an operation on the shared objects at a time.
use video_processor_go.Base.{
  ℕ, suc, ◌+◌, ◌-◌, ℤ, pos, String, Bool, true, false, Option, none, some, Error, ltb, ◌==◌,
  if◌then◌else◌, ◌≡◌, ◌&&◌, not,
}
use video_processor_go.Pipeline.Result.{ProcessingResult}

-- `if maxParallel < 1 { ... }; if maxParallel > 4 { ... }`
unfoldable pub permits : ℤ → ℕ
permits (ℤ.negsuc n) = 1
permits (pos n) = if ltb n 1 then 1 else if ltb 4 n then 4 else n

pub data Task : Type 0 where
  thumbnails audio preview streaming : Task

-- The order in which `run` is called.
abbrev pub number : Task → ℕ
number thumbnails = 0
number audio = 1
number preview = 2
number streaming = 3

abbrev pub same : Task → Task → Bool
same i j = number i == number j

-- Where a goroutine stands. What its step returned is kept until the end.
pub data Pc : Type 0 where
  unborn : Pc  -- `run` was not called
  waiting : Pc  -- before `sem <- struct{}{}`
  running : Pc  -- in `runStep`
  succeeded : Pc  -- before `mu.Lock()`
  writing : Pc  -- before `onSuccess()`
  written : Pc  -- before `mu.Unlock()`
  leaving : Option Error → Pc  -- before `<-sem`
  released : Option Error → Pc  -- before `wg.Done()`
  finished : Option Error → Pc

pub record Run : Type 0 where
  pub result : ProcessingResult
  pub held : ℕ  -- the entries in `sem`
  pub locked : Bool  -- `mu`
  pub counter : ℕ  -- of `wg`
  pub spawned : ℕ  -- the calls of `run` made
  pub returned : Bool  -- `wg.Wait()` is over
  pub pc : Task → Pc

abbrev pub update : (Task → Pc) → Task → Pc → Task → Pc
update f i p j = if same i j then p else f j

-- `onSuccess` of each of the four.
unfoldable pub set_path : (Task → String) → Task → ProcessingResult → ProcessingResult
set_path paths thumbnails r = record r { thumbnails_dir = paths thumbnails }
set_path paths audio r = record r { audio_path = paths audio }
set_path paths preview r = record r { preview_path = paths preview }
set_path paths streaming r = record r { streaming_dir = paths streaming }

abbrev pub start : ProcessingResult → Run
start result = record {
  result = result;
  held = 0;
  locked = false;
  counter = 0;
  spawned = 0;
  returned = false;
  pc = λ i. unborn;
}

module _ (limit : ℕ) (paths : Task → String) where
  -- The next operation of a goroutine that stands at the given place; `none` where it blocks. The
  -- outcome is what its step returns, if that is what it does next.
  unfoldable pub advance_at : Task → Option Error → Pc → Run → Option Run
  advance_at i outcome unborn s = none
  advance_at i outcome waiting s =
      if ltb s.held limit
      then some (record s { held = s.held + 1; pc = update s.pc i running })
      else none
  advance_at i none running s = some (record s { pc = update s.pc i succeeded })
  advance_at i (some e) running s = some (record s { pc = update s.pc i (leaving (some e)) })
  advance_at i outcome succeeded s =
      if s.locked then none else some (record s { locked = true; pc = update s.pc i writing })
  advance_at i outcome writing s =
      some (record s { result = set_path paths i s.result; pc = update s.pc i written })
  advance_at i outcome written s =
      some (record s { locked = false; pc = update s.pc i (leaving none) })
  advance_at i outcome (leaving e) s =
      if ltb 0 s.held
      then some (record s { held = s.held - 1; pc = update s.pc i (released e) })
      else none
  advance_at i outcome (released e) s =
      if ltb 0 s.counter
      then some (record s { counter = s.counter - 1; pc = update s.pc i (finished e) })
      else none
  advance_at i outcome (finished e) s = none

  unfoldable pub advance : Task → Option Error → Run → Option Run
  unfolding advance_at set_path
  advance i outcome s = advance_at i outcome (s.pc i) s

  -- `wg.Add(1)` and `go` in a call of `run`.
  abbrev pub spawn : Task → Run → Run
  spawn i s = record s {
    counter = s.counter + 1;
    spawned = s.spawned + 1;
    pc = update s.pc i waiting;
  }

  -- The next operation of the caller: the four calls of `run`, and then `wg.Wait()`.
  unfoldable pub advance_caller : Run → Option Run
  advance_caller s =
      if s.spawned == 0
      then some (spawn thumbnails s)
      else if s.spawned == 1
      then some (spawn audio s)
      else if s.spawned == 2
      then some (spawn preview s)
      else if s.spawned == 3
      then some (spawn streaming s)
      else if s.counter == 0 && not s.returned
      then some (record s { returned = true })
      else none

  pub data Step (s : Run) (t : Run) : Type 0 where
    of_task : (i : Task) (outcome : Option Error) → advance i outcome s ≡ some t → Step s t
    of_caller : advance_caller s ≡ some t → Step s t

  -- A run of that many operations, in any order that the guards allow.
  pub data Steps (r : ProcessingResult) : ℕ → Run → Type 0 where
    none_yet : Steps r 0 (start r)
    next : {n : ℕ} {s t : Run} → Steps r n s → Step s t → Steps r (suc n) t
