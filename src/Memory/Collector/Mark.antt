-- ===== src/Memory/Collector/Mark.antt =====
-- The round of `gc_move` (vm/memory.c) that finds an object which is not yet moved: the place for its
-- copy, and the copy of the bytes of a binary object.
use littlesmalltalk.Prelude.{
  ℕ, zero, suc, ◌+◌, ◌-◌, ◌≤◌, ◌<◌, ◌≡◌, ◌≢◌, refl, sym, ap, ◌∙◌, inl, inr, true, false, List, ◌==◌,
  ==_iff, ltb, if◌then◌else◌, Bool-cases, arith,
}
use littlesmalltalk.Prelude.Result.{ok}
use littlesmalltalk.Memory.Collector.{
  Mobject, Store, Spaces, down, is_small_int, in_newspace, in_oldspace, to_words, set_word, last,
  words_down, copy_words, move, step_down,
}
use littlesmalltalk.Memory.Collector.Frame.{
  Among, bytes_of, remaining, remaining-move, Kept, Slot, IsClosed, IsReady, IsNew,
}
use littlesmalltalk.Memory.Collector.Grows.{Grows, not_old}
use littlesmalltalk.Memory.Collector.Gray.{two, two-object, two-copy, two-other, ==_ne, ==_self}
use littlesmalltalk.Memory.Collector.Steps.{Target, Gray}

copy_words-above : (n j : ℕ) (old new : ℕ → ℕ) → n < j → copy_words n old new j ≡ new j
unfolding copy_words
copy_words-above zero j old new l = refl
copy_words-above (suc n) j old new l =
    copy_words-above n j old (set_word new (suc n) (old (suc n))) (omega arith)
    ∙ rw (==_ne j (suc n) (λ e. omega (arith, e))) refl

copy_words_lem : (n j : ℕ) (old new : ℕ → ℕ) → j ≢ 0 → j ≤ n → copy_words n old new j ≡ old j
unfolding copy_words
copy_words_lem zero j old new ne l = absurd (ne (omega arith))
copy_words_lem (suc n) j old new ne l = elim (Bool-cases (j == suc n)) [
  | inl e ↦
      let same : j ≡ suc n = (==_iff j (suc n)).0 e in
      rw same (
        copy_words-above n (suc n) old (set_word new (suc n) (old (suc n))) (omega arith)
        ∙ rw (==_self (suc n)) refl)
  | inr e ↦ copy_words_lem n j old (set_word new (suc n) (old (suc n))) ne (ground arith)
]

first_le : (o : Mobject) → (if o.binary then 0 else o.size) ≤ last o
first_le o = elim (Bool-cases (o.binary)) [
  | inl b ↦ rw b (omega arith)
  | inr f ↦ rw f (omega arith)
]

module _ (sp : Spaces) (h : ℕ → Mobject) (os : List ℕ) (closed : IsClosed sp h os) (s : Store)
    (a p : ℕ) (ready : IsReady sp h os s) (among : Among a os)
    (undone : (s.at a).done ≡ false) where
  abbrev pub place : ℕ
  place = s.memory_pointer - bytes_of (h a)

  -- The word that is moved first.
  abbrev pub first : ℕ
  first = if (h a).binary then 0 else (h a).size

  abbrev start_words : ℕ → ℕ
  start_words =
      if (h a).binary
      then copy_words (to_words (h a).size) (h a).words (s.at place).words
      else (s.at place).words

  abbrev copy : Mobject
  copy = record {
    size = (h a).size;
    binary = (h a).binary;
    done = false;
    words = set_word start_words first p;
  }

  abbrev object : Mobject
  object = record (h a) { done = true; words = set_word (h a).words first place }

  abbrev pub marked : Store
  marked = two (record s { memory_pointer = place }) place copy a object

  old : in_oldspace sp a ≡ true
  old = closed.old a among

  -- There is room, by the count of the objects that remain.
  room_then :
      (s' : Store)
      → (s'.at a).done ≡ true
      → ((b : ℕ) → Among b os → (s.at b).done ≡ true → (s'.at b).done ≡ true)
      → remaining h s' os + bytes_of (h a) ≤ remaining h s os
  room_then s' d keep = remaining-move sp h os s s' a os among undone d keep

  all_done : Store
  all_done = record s { at = λ b. record (s.at b) { done = true } }

  fits : sp.memory_base + bytes_of (h a) ≤ s.memory_pointer
  unfolding all_done
  fits = let r = room_then all_done refl (λ b m d. refl) in let q = ready.room in omega arith

  pub place_new : in_newspace sp place ≡ true
  place_new = let f = fits in let b = ready.below in ground (arith)

  apart : a ≢ place
  apart e = (let o = old in cc (closed.apart place (rw e at o), place_new))

  pub marked-Target : Target sp h os closed s a p place
  marked-Target = record {
    old = old;
    undone = undone;
    new = place_new;
    top = ready.below;
    size = (let f = fits in omega arith);
  }

  same_as : s.at a ≡ h a
  same_as = ready.fresh a old undone

  move_lem : move a p s ≡ ok (down ((h a).words first) a, marked)
  unfolding move words_down
  move_lem =
      let enough : ltb s.memory_pointer (bytes_of (h a)) ≡ false = (let f = fits in ground arith) in
      rw (same_as, enough) refl

  pub step_down-marked :
      is_small_int a ≡ false
      → in_newspace sp a ≡ false
      → step_down sp a p s ≡ ok (down ((h a).words first) a, marked)
  unfolding step_down
  step_down-marked ref not_new = rw (ref, not_new, old, undone) move_lem

  at_object : marked.at a ≡ object
  at_object = two-object (record s { memory_pointer = place }) place a copy object apart

  at_copy : marked.at place ≡ copy
  at_copy = two-copy (record s { memory_pointer = place }) place a copy object apart

  at_other : (b : ℕ) → b ≢ a → b ≢ place → marked.at b ≡ s.at b
  at_other = two-other (record s { memory_pointer = place }) place a copy object apart

  ne_place : (b : ℕ) → in_oldspace sp b ≡ true → b ≢ place
  ne_place b o e = cc (rw e at o, not_old sp h os closed place place_new)

  stays_done : (b : ℕ) → in_oldspace sp b ≡ true → (s.at b).done ≡ true → (marked.at b).done ≡ true
  stays_done b o d =
      let not_a : b ≢ a = λ e. cc (rw e at d, undone) in
      ap Mobject.done (at_other b not_a (ne_place b o)) ∙ d

  pub marked-remaining : remaining h marked os + bytes_of (h a) ≤ remaining h s os
  marked-remaining =
      room_then marked (ap Mobject.done at_object) (λ b m d. stays_done b (closed.old b m) d)

  was_done : (b : ℕ) → b ≢ a → IsNew sp h os s marked b → ⊥
  was_done b ne (o, u, d) = cc (sym (ap Mobject.done (at_other b ne (ne_place b o))) ∙ d, u)

  marked-IsReady : IsReady sp h os marked
  marked-IsReady = record {
    fresh = λ b o u.
        (let not_a : b ≢ a = λ e. cc (rw e at u, ap Mobject.done at_object) in
          let same = at_other b not_a (ne_place b o) in
          same ∙ ready.fresh b o (sym (ap Mobject.done same) ∙ u));
    room = (let m = marked-remaining in let r = ready.room in omega arith);
    below = (let b = ready.below in omega arith);
    aligned = (let l = ready.aligned in let f = fits in omega arith);
  }

  marked-Kept : (b : ℕ) → Kept sp s b → marked.at b ≡ s.at b
  marked-Kept b k =
      let not_a : b ≢ a = λ e. (let d = k.moved (rw e old) in cc (rw e at d, undone)) in
      let not_n : b ≢ place =
        λ e. (let t = k.taken (rw e place_new) in let f = fits in omega (arith, e)) in
      at_other b not_a not_n

  marked-Grows : Grows sp h os a place s marked
  marked-Grows = record {
    ready = marked-IsReady;
    extends = record { same = marked-Kept; lower = omega arith };
    bound = omega arith;
    used = (let m = marked-remaining in let f = fits in omega arith);
    copied = λ b ne m. absurd (was_done b ne m);
    within = λ b ne m. absurd (was_done b ne m);
    apart = λ b c nb nc ne m n. absurd (was_done b nb m);
  }

  -- The bytes of a binary object are copied at once; of an ordinary one all words are to be moved.
  marked-filled :
      (j : ℕ) → first < j → j ≤ last (h a) → Slot sp h marked a j (set_word start_words first p j)
  marked-filled j l u = elim (Bool-cases ((h a).binary)) [
    | inl b ↦
        let u' : j ≤ to_words (h a).size = rw b at u in
        let l' : 0 < j = rw b at l in
        let word : set_word start_words first p j ≡ (h a).words j =
          rw (b, ==_ne j 0 (λ e. omega (arith, e)))
            (copy_words_lem (to_words (h a).size) j (h a).words _ (λ e. omega (arith, e)) u') in
        record {
          pointer = λ yes_. (let z = rw b at yes_ in absurd (pointer_only j l' z));
          raw = λ _. word;
        }
    | inr f ↦
        (let u' : j ≤ (h a).size = rw f at u in
          let l' : (h a).size < j = rw f at l in absurd (omega arith))
  ]
    where
      pointer_only : (j : ℕ) → 0 < j → (j == 0) ≡ true → ⊥
      pointer_only j l e = ground arith

  first_size : (h a).binary ≡ false → (h a).size ≡ first
  first_size f = rw f refl

  pub marked-Gray : Gray sp h os closed s a p place first marked
  marked-Gray = record {
    grows = marked-Grows;
    size = λ f. ap Mobject.size at_object ∙ first_size f;
    binary = ap Mobject.binary at_object;
    is_class = λ b. rw b refl;
    done = ap Mobject.done at_object;
    bound = first_le (h a);
    below = λ j l.
        ap (λ (o : Mobject). o.words j) at_object ∙ rw (==_ne j first (λ e. omega (arith, e))) refl;
    here = ap (λ (o : Mobject). o.words first) at_object ∙ rw (==_self first) refl;
    copy_size = ap Mobject.size at_copy;
    copy_binary = ap Mobject.binary at_copy;
    copy_live = ap Mobject.done at_copy;
    back = ap (λ (o : Mobject). o.words first) at_copy ∙ rw (==_self first) refl;
    filled = λ j l u. rw at_copy (marked-filled j l u);
  }
