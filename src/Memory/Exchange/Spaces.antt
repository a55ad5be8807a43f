-- ===== src/Memory/Exchange/Spaces.antt =====
-- What `walk` and `exchangeObjects` of vm/memory.c make of the objects and the roots.
use littlesmalltalk.Prelude.{ℕ, ◌≡◌, ◌≢◌, ◌⊎◌, List, [], ◌∷◌, length}
use littlesmalltalk.Memory.Collector.Frame.{Among}
use littlesmalltalk.Memory.Exchange.{Heap, Memory}
use littlesmalltalk.Memory.Exchange.References.{AreDistinct, BecomesWord, BecomeWords}
use littlesmalltalk.Memory.Exchange.Walked.{BecomeContents, HaveWords}

-- No object is listed twice.
abbrev pub AreOnce : List ℕ → Type 0
AreOnce [] = Unit
AreOnce (a ∷ as_) = ¬ Among a as_ × AreOnce as_

-- The exchanged memory: the arrays keep their words; the class of every object of the two spaces is
-- exchanged, and so are the fields of every one but the arrays; all else that stands in the memory is as it
-- was, and the roots are exchanged.
pub record ExchangedMemory (array1 array2 : ℕ) (d1 d2 : List ℕ) (m m' : Memory) : Type 0 where
  pub arrays : HaveWords array1 array2 d1 d2 m'.heap
  pub class_ :
      (b : ℕ)
      → Among b m.dynamic ⊎ Among b m.static
      → BecomesWord d1 d2 ((m.heap b).class_) ((m'.heap b).class_)
  pub contents :
      (b : ℕ)
      → Among b m.dynamic ⊎ Among b m.static
      → b ≢ array1
      → b ≢ array2
      → BecomeContents d1 d2 ((m.heap b).contents) ((m'.heap b).contents)
  pub others : (b : ℕ) → ¬ (Among b m.dynamic ⊎ Among b m.static) → m'.heap b ≡ m.heap b
  pub roots : BecomeWords d1 d2 m.roots m'.roots
  pub static_roots : BecomeWords d1 d2 m.static_roots m'.static_roots

module _ (array1 array2 : ℕ) (d1 d2 : List ℕ) (size : length d1 ≡ length d2)
    (distinct : AreDistinct d1 d2) where
  -- The objects of a space are exchanged, and all others are as they were.
  pub record Walked (space : List ℕ) (h h' : Heap) : Type 0 where
    words : HaveWords array1 array2 d1 d2 h'
    class_ : (b : ℕ) → Among b space → BecomesWord d1 d2 ((h b).class_) ((h' b).class_)
    contents :
        (b : ℕ)
        → Among b space
        → b ≢ array1
        → b ≢ array2
        → BecomeContents d1 d2 ((h b).contents) ((h' b).contents)
    others : (b : ℕ) → ¬ Among b space → h' b ≡ h b
