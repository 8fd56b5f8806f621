-- ===== src/Release/Atomic/Store.antt =====
-- The contract of `ReleaseStage` (release/protocols.py): a write stages all of its records or none,
-- a commit that returns makes what is staged visible, an abort discards it.
use property_tax_data_platfo.Base.{List, [], ◌∷◌, ◌++◌}
use property_tax_data_platfo.Sources.Contracts.{AppraisalSourceRecord}
use property_tax_data_platfo.Release.Records.{SourceRowEnvelope}
use property_tax_data_platfo.Release.Run.{
  Call, Reply, Event, stage_write, stage_commit, stage_abort, returned,
}

pub record Store : Type 0 where
  pub staged : List AppraisalSourceRecord
  pub visible : List AppraisalSourceRecord

unfoldable pub apply : Call → Reply → Store → Store
apply (stage_write records) returned s = record s { staged = s.staged ++ records }
apply stage_commit returned s = record { staged = []; visible = s.visible ++ s.staged }
apply stage_abort reply s = record s { staged = [] }
apply call reply s = s

-- the stage after a trace, whose latest call stands first
unfoldable pub store_of : List Event → Store
unfolding apply
store_of [] = record { staged = []; visible = [] }
store_of (e ∷ before) = apply e.call e.reply (store_of before)

-- the records of the rows, in the order in which the reader gave them
unfoldable pub records_of : List SourceRowEnvelope → List AppraisalSourceRecord
records_of [] = []
records_of (e ∷ rest) = e.records ++ records_of rest
