-- ===== src/Memory/Collector/Frame.antt =====
-- What `gc_move` (vm/memory.c) keeps of the memory, and what it makes of an object: the predicates that
-- its correctness is stated by, for the memory `h` in which the collection starts.
use littlesmalltalk.Prelude.{
  ℕ, ◌+◌, ◌*◌, ◌%◌, ◌≤◌, ◌≡◌, ◌⊎◌, refl, sym, ap, ◌∙◌, inl, inr, Bool, true, false, ◌&&◌, ◌||◌, not,
  List, [], ◌∷◌, ◌==◌, if◌then◌else◌, Bool-cases, arith,
}
use littlesmalltalk.Memory.Collector.{
  Mobject, Store, Spaces, is_small_int, in_newspace, in_oldspace, forward, last,
}

abbrev pub Among : ℕ → List ℕ → Type 0
Among a [] = ⊥
Among a (b ∷ bs) = (a ≡ b) ⊎ Among a bs

-- The bytes of an object, with its header.
abbrev pub bytes_of : Mobject → ℕ
bytes_of o = 8 * (last o + 2)

-- The words that hold pointers: all of an ordinary object, and the class of a binary one.
abbrev pub holds_pointer : Mobject → ℕ → Bool
holds_pointer o j = not (o.binary) || j == 0

-- The bytes of the objects that are not yet moved.
unfoldable pub remaining : (ℕ → Mobject) → Store → List ℕ → ℕ
remaining h s [] = 0
remaining h s (a ∷ os) = (if (s.at a).done then 0 else bytes_of (h a)) + remaining h s os

module _ (sp : Spaces) where
  -- What a round that moves something else leaves alone: objects that are moved already, the part of the
  -- new space that is taken, and all that is in neither space.
  pub record Kept (s : Store) (a : ℕ) : Type 0 where
    pub moved : in_oldspace sp a ≡ true → (s.at a).done ≡ true
    pub taken : in_newspace sp a ≡ true → s.memory_pointer ≤ a

  pub record Extends (s s' : Store) : Type 0 where
    pub same : (a : ℕ) → Kept s a → s'.at a ≡ s.at a
    pub lower : s'.memory_pointer ≤ s.memory_pointer

  -- `r` is what becomes of the word `w`.
  pub record Moved (s : Store) (w r : ℕ) : Type 0 where
    pub fixed : (not (is_small_int w) && in_oldspace sp w) ≡ false → r ≡ w
    pub moved :
        is_small_int w ≡ false
        → in_oldspace sp w ≡ true
        → ((s.at w).done ≡ true) × (r ≡ forward (s.at w))

  -- What was moved stays moved to the same place.
  abbrev pub Follows : Store → Store → Type 0
  Follows s s' =
      (a : ℕ)
      → in_oldspace sp a ≡ true
      → (s.at a).done ≡ true
      → ((s'.at a).done ≡ true) × (forward (s'.at a) ≡ forward (s.at a))

  pub Moved-Follows : {s s' : Store} {w r : ℕ} → Follows s s' → Moved s w r → Moved s' w r
  Moved-Follows f m = record {
    fixed = m.fixed;
    moved = λ ref old.
        (let (done, there) = m.moved ref old in
          let (done', same) = f _ old done in (done', there ∙ sym same));
  }

  pub Kept-moved :
      {s : Store} (a : ℕ)
      → (in_oldspace sp a ≡ true → in_newspace sp a ≡ false)
      → in_oldspace sp a ≡ true
      → (s.at a).done ≡ true
      → Kept s a
  Kept-moved a apart old done = record { moved = λ _. done; taken = λ new. cc (apart old, new) }

  pub Extends-Follows :
      {s s' : Store}
      → ((a : ℕ) → in_oldspace sp a ≡ true → in_newspace sp a ≡ false)
      → Extends s s'
      → Follows s s'
  Extends-Follows {s} apart e a old done =
      let same = e.same a (Kept-moved {s = s} a (apart a) old done) in
      (ap Mobject.done same ∙ done, ap forward same)

  pub Kept-Extends : {s s' : Store} (a : ℕ) → Extends s s' → Kept s a → Kept s' a
  Kept-Extends a e k = record {
    moved = λ old. ap Mobject.done (e.same a k) ∙ k.moved old;
    taken = λ new. (let h = k.taken new in let l = e.lower in omega arith);
  }

  pub Extends-trans : {s s' s'' : Store} → Extends s s' → Extends s' s'' → Extends s s''
  Extends-trans e f = record {
    same = λ a k. f.same a (Kept-Extends a e k) ∙ e.same a k;
    lower = (let l = e.lower in let m = f.lower in omega arith);
  }

  module _ (h : ℕ → Mobject) where
    -- The word `v` is right at place `j` of the copy of the object at `b`.
    pub record Slot (s : Store) (b j v : ℕ) : Type 0 where
      pub pointer : holds_pointer (h b) j ≡ true → Moved s ((h b).words j) v
      pub raw : holds_pointer (h b) j ≡ false → v ≡ (h b).words j

    -- The object at `b` has its copy at the place it is forwarded to.
    pub record Copied (s : Store) (b : ℕ) : Type 0 where
      pub size : (s.at (forward (s.at b))).size ≡ (h b).size
      pub binary : (s.at (forward (s.at b))).binary ≡ (h b).binary
      pub live : (s.at (forward (s.at b))).done ≡ false
      pub words : (j : ℕ) → j ≤ last (h b) → Slot s b j ((s.at (forward (s.at b))).words j)

    pub Slot-Follows : {s s' : Store} {b j v : ℕ} → Follows s s' → Slot s b j v → Slot s' b j v
    Slot-Follows f t = record { pointer = λ p. Moved-Follows f (t.pointer p); raw = t.raw }

    pub Copied-Follows :
        {s s' : Store} (b : ℕ)
        → Follows s s'
        → in_oldspace sp b ≡ true
        → (s.at b).done ≡ true
        → s'.at (forward (s.at b)) ≡ s.at (forward (s.at b))
        → Copied s b
        → Copied s' b
    Copied-Follows {s} {s'} b f old done same c =
        let to = (f b old done).1 in
        let e : s'.at (forward (s'.at b)) ≡ s.at (forward (s.at b)) = ap s'.at to ∙ same in
        record {
          size = ap Mobject.size e ∙ c.size;
          binary = ap Mobject.binary e ∙ c.binary;
          live = ap Mobject.done e ∙ c.live;
          words = λ j le. rw e (Slot-Follows f (c.words j le));
        }

    module _ (os : List ℕ) where
      -- A word that may be moved: a SmallInt, a place in neither space, or one of the objects `os`.
      pub record IsFine (w : ℕ) : Type 0 where
        pub not_new : is_small_int w ≡ false → in_newspace sp w ≡ false
        pub object : is_small_int w ≡ false → in_oldspace sp w ≡ true → Among w os

      -- The spaces are apart, NULL is not in the old one, the objects `os` are, and their pointers are
      -- fine.
      pub record IsClosed : Type 0 where
        pub apart : (a : ℕ) → in_oldspace sp a ≡ true → in_newspace sp a ≡ false
        pub null : in_oldspace sp 0 ≡ false
        pub old : (b : ℕ) → Among b os → in_oldspace sp b ≡ true
        pub fields :
            (b j : ℕ)
            → Among b os
            → j ≤ last (h b)
            → holds_pointer (h b) j ≡ true
            → IsFine ((h b).words j)

      -- Between the moves of two words: an object that is not moved is as it was, and there is room.
      pub record IsReady (s : Store) : Type 0 where
        pub fresh : (b : ℕ) → in_oldspace sp b ≡ true → (s.at b).done ≡ false → s.at b ≡ h b
        pub room : sp.memory_base + remaining h s os ≤ s.memory_pointer
        pub below : s.memory_pointer ≤ sp.memory_top
        pub aligned : s.memory_pointer % 8 ≡ 0

      -- What is new in `s'` over `s`: each newly moved object has its copy between the two pointers.
      abbrev pub IsNew : Store → Store → ℕ → Type 0
      IsNew s s' b = (in_oldspace sp b ≡ true) × ((s.at b).done ≡ false) × ((s'.at b).done ≡ true)

      pub record Within (s' : Store) (upper b : ℕ) : Type 0 where
        pub from : s'.memory_pointer ≤ forward (s'.at b)
        pub to : forward (s'.at b) + bytes_of (h b) ≤ upper
        pub aligned : forward (s'.at b) % 8 ≡ 0

      abbrev pub AreApart : Store → (b c : ℕ) → Type 0
      AreApart s b c =
          (forward (s.at b) + bytes_of (h b) ≤ forward (s.at c))
          ⊎ (forward (s.at c) + bytes_of (h c) ≤ forward (s.at b))

      pub remaining-done :
          (s s' : Store) (bs : List ℕ)
          → ((b : ℕ) → Among b bs → (s.at b).done ≡ true → (s'.at b).done ≡ true)
          → remaining h s' bs ≤ remaining h s bs
      unfolding remaining
      remaining-done s s' [] keep = omega arith
      remaining-done s s' (b ∷ bs) keep =
          let rest = remaining-done s s' bs (λ c m. keep c (inr m)) in
          elim (Bool-cases ((s.at b).done)) [
            | inl d ↦ rw (d, keep b (inl refl) d) (omega arith)
            | inr d ↦ elim (Bool-cases ((s'.at b).done)) [
              | inl d' ↦ rw (d, d') (omega arith)
              | inr d' ↦ rw (d, d') (omega arith)
            ]
          ]

      pub remaining-move :
          (s s' : Store) (a : ℕ) (bs : List ℕ)
          → Among a bs
          → (s.at a).done ≡ false
          → (s'.at a).done ≡ true
          → ((b : ℕ) → Among b bs → (s.at b).done ≡ true → (s'.at b).done ≡ true)
          → remaining h s' bs + bytes_of (h a) ≤ remaining h s bs
      unfolding remaining
      remaining-move s s' a [] m d d' keep = absurd m
      remaining-move s s' a (b ∷ bs) (inl e) d d' keep =
          let rest = remaining-done s s' bs (λ c m. keep c (inr m)) in
          rw (← e) (rw (d, d') (omega arith))
      remaining-move s s' a (b ∷ bs) (inr m) d d' keep =
          let rest = remaining-move s s' a bs m d d' (λ c m'. keep c (inr m')) in
          elim (Bool-cases ((s.at b).done)) [
            | inl e ↦ rw (e, keep b (inl refl) e) (omega arith)
            | inr e ↦ elim (Bool-cases ((s'.at b).done)) [
              | inl e' ↦ rw (e, e') (omega arith)
              | inr e' ↦ rw (e, e') (omega arith)
            ]
          ]
