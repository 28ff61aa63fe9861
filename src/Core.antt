-- ===== src/Core.antt =====
-- pkg/core/element.go: what travels on every channel.
use tidemark.Prelude.{ℕ, ℤ, List}

pub record Record : Type 0 where
  pub key : List ℕ
  pub value : List ℕ
  pub event_time : ℤ

pub record Barrier : Type 0 where
  pub checkpoint_id : ℤ
  pub timestamp : ℤ

-- The struct is a tagged union: only the field that its kind names is meaningful.
pub data StreamElement : Type 0 where
  record_element : Record → StreamElement
  watermark_element : ℤ → StreamElement
  barrier_element : Barrier → StreamElement
  end_of_stream_element : StreamElement
