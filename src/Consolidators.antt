-- ===== src/Consolidators.antt =====
-- crates/consolidators/src/: what a language model answers, made into a report or a verdict, and the
-- consolidator of noop.rs, which asks nobody.
pub mod Extract
pub mod Llm
use merkur_db.Base.{length}
use merkur_db.Core.Storage.{Consolidator}
use merkur_db.Core.Types.{empty_report, default_adjudication, ok}

-- Its `adjudicate` is the trait's own.
abbrev pub noop_consolidator : {F : Type 0} → Consolidator F
unfolding empty_report default_adjudication
noop_consolidator {F} = record {
  consolidate =
      λ memories. ok (record (empty_report {F = F}) { memories_processed = length memories });
  adjudicate = λ pending candidates. ok default_adjudication;
}
