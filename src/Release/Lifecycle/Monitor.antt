-- ===== src/Release/Lifecycle/Monitor.antt =====
-- The order of calls that release/protocols.py and the header of release/processor.py describe, as
-- a machine that reads the calls of a run: `none` means that a call came where it may not.
use property_tax_data_platfo.Base.{◌≡◌, Option, none, some, List, [], ◌∷◌}
use property_tax_data_platfo.Release.Run.{
  Call, Reply, Event, reader_enter, reader_prepare, reader_iter, reader_next, reader_exit,
  stage_enter, stage_finalize, stage_commit, stage_abort, stage_exit, stage_write, progress,
  guard_check, returned,
}

pub data ReaderLife : Type 0 where
  unopened opened prepared closed : ReaderLife

pub data StageLife : Type 0 where
  absent entered finalized committed aborted released : StageLife

pub record Life : Type 0 where
  pub reader : ReaderLife
  pub stage : StageLife

abbrev pub at_life : ReaderLife → StageLife → Option Life
at_life r s = some (record { reader = r; stage = s })

-- The life after a call, for each call that is in order.
unfoldable pub advance : Call → Reply → ReaderLife → StageLife → Option Life
advance reader_enter returned unopened absent = at_life opened absent
advance reader_enter _ unopened absent = at_life unopened absent
advance reader_prepare returned opened absent = at_life prepared absent
advance reader_prepare _ opened absent = at_life opened absent
advance stage_enter returned prepared absent = at_life prepared entered
advance stage_enter _ prepared absent = at_life prepared absent
advance reader_iter _ prepared entered = at_life prepared entered
advance reader_next _ prepared entered = at_life prepared entered
advance (stage_write _) _ prepared entered = at_life prepared entered
advance (progress _) _ prepared entered = at_life prepared entered
advance (guard_check _ _) _ prepared entered = at_life prepared entered
advance reader_exit _ opened s = at_life closed s
advance reader_exit _ prepared s = at_life closed s
advance stage_finalize returned closed entered = at_life closed finalized
advance stage_finalize _ closed entered = at_life closed entered
advance stage_commit returned closed finalized = at_life closed committed
advance stage_commit _ closed finalized = at_life closed finalized
advance stage_abort _ r entered = at_life r aborted
advance stage_abort _ r finalized = at_life r aborted
advance stage_exit _ r committed = at_life r released
advance stage_exit _ r aborted = at_life r released
advance _ _ _ _ = none

unfoldable pub advance_life : Call → Reply → Option Life → Option Life
unfolding advance
advance_life call reply none = none
advance_life call reply (some l) = advance call reply l.reader l.stage

-- the life after a trace, whose latest call stands first
unfoldable pub life_of : List Event → Option Life
unfolding advance_life
life_of [] = at_life unopened absent
life_of (e ∷ before) = advance_life e.call e.reply (life_of before)

abbrev pub ReaderOver : ReaderLife → Type 0
ReaderOver unopened = Unit
ReaderOver closed = Unit
ReaderOver _ = ⊥

abbrev pub StageOver : StageLife → Type 0
StageOver absent = Unit
StageOver released = Unit
StageOver _ = ⊥

-- Every call came in order, and what was opened is closed.
pub record IsOver (trace : List Event) : Type 0 where
  pub reader : ReaderLife
  pub stage : StageLife
  pub life : life_of trace ≡ at_life reader stage
  pub reader_over : ReaderOver reader
  pub stage_over : StageOver stage
