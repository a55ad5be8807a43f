-- ===== src/Memory/Exchange/Walked.antt =====
-- What one turn of `walk` of vm/memory.c makes of an object.
use littlesmalltalk.Prelude.{
  ℕ, zero, suc, ◌+◌, ◌≤◌, ◌<◌, ◌≡◌, ◌≢◌, ◌⊎◌, refl, sym, ◌∙◌, inl, inr, List, [], ◌∷◌, some, ◌==◌,
  ==_iff, Bool-cases, length, length-set, get_elem?, set, get_elem?-set_self, get_elem?-set_ne,
  arith,
}
use littlesmalltalk.Dictionary.Search.{lt-length}
use littlesmalltalk.Memory.Collector.Gray.{==_ne, ==_self}
use littlesmalltalk.Memory.Exchange.{
  Contents, fields, bytes, Heap, store, map_in, map_fields, map_class, walk_object,
}
use littlesmalltalk.Memory.Exchange.References.{
  AreDistinct, BecomesWord, BecomeWords, map_oop-BecomesWord,
}

-- The fields of an ordinary object are exchanged word by word, and bytes stay.
abbrev pub BecomeContents : (d1 d2 : List ℕ) → Contents → Contents → Type 0
BecomeContents d1 d2 (fields os) (fields os') = BecomeWords d1 d2 os os'
BecomeContents d1 d2 (bytes bs) (bytes bs') = bs' ≡ bs
BecomeContents d1 d2 (fields os) (bytes bs') = ⊥
BecomeContents d1 d2 (bytes bs) (fields os') = ⊥

of_fields :
    (d1 d2 : List ℕ) (c c' : Contents) (os os' : List ℕ)
    → c ≡ fields os
    → c' ≡ fields os'
    → BecomeWords d1 d2 os os'
    → BecomeContents d1 d2 c c'
of_fields d1 d2 c c' os os' e e' b = rw (e, e') b

of_bytes :
    (d1 d2 : List ℕ) (c c' : Contents) (bs : List ℕ)
    → c ≡ bytes bs
    → c' ≡ bytes bs
    → BecomeContents d1 d2 c c'
of_bytes d1 d2 c c' bs e e' = rw (e, e') refl

there : (xs : List ℕ) (i : ℕ) → i < length xs → (w : ℕ) × (get_elem? xs i ≡ some w)
there [] i h = absurd (omega arith)
there (x ∷ xs) zero h = (x, refl)
there (x ∷ xs) (suc i) h = there xs i (omega arith)

-- The two arrays have their words.
abbrev pub HaveWords : (array1 array2 : ℕ) → (d1 d2 : List ℕ) → Heap → Type 0
HaveWords array1 array2 d1 d2 h =
    ((h array1).contents ≡ fields d1) × ((h array2).contents ≡ fields d2)

module _ (array1 array2 : ℕ) (d1 d2 : List ℕ) (size : length d1 ≡ length d2)
    (distinct : AreDistinct d1 d2) where
  pub map_in-BecomesWord :
      (h : Heap) (w : ℕ)
      → HaveWords array1 array2 d1 d2 h
      → BecomesWord d1 d2 w (map_in array1 array2 h w)
  map_in-BecomesWord h w (e1, e2) = rw (e1, e2) (map_oop-BecomesWord d1 d2 w size distinct)

  -- The fields from `x` on.
  record Mapped (x op : ℕ) (os : List ℕ) (h h' : Heap) : Type 0 where
    os' : List ℕ
    contents : (h' op).contents ≡ fields os'
    class_ : (h' op).class_ ≡ (h op).class_
    same_size : length os' ≡ length os
    before : (j : ℕ) → j < x → get_elem? os' j ≡ get_elem? os j
    behind :
        (j w : ℕ)
        → x ≤ j
        → get_elem? os j ≡ some w
        → (w' : ℕ) × (get_elem? os' j ≡ some w') × BecomesWord d1 d2 w w'
    others : (b : ℕ) → b ≢ op → h' b ≡ h b

  map_fields-Mapped :
      (k x op : ℕ) (h : Heap) (os : List ℕ)
      → HaveWords array1 array2 d1 d2 h
      → op ≢ array1
      → op ≢ array2
      → (h op).contents ≡ fields os
      → x + k ≡ length os
      → Mapped x op os h (map_fields array1 array2 k x op h)
  unfolding map_fields
  map_fields-Mapped zero x op h os words not_1 not_2 e end = record {
    os' = os;
    contents = e;
    class_ = refl;
    same_size = refl;
    before = λ j l. refl;
    behind = λ j w l at. absurd (let inside = lt-length os j at in omega arith);
    others = λ b ne. refl;
  }
  map_fields-Mapped (suc k) x op h os words not_1 not_2 e end =
      let (w, at) = there os x (omega arith) in
      let v : ℕ = map_in array1 array2 h w in
      let h₁ : Heap = store h op (record (h op) { contents = fields (set os x v) }) in
      let rest =
        map_fields-Mapped k (suc x) op h₁ (set os x v)
          (
            rw (==_ne array1 op (λ z. not_1 (sym z))) words.0,
            rw (==_ne array2 op (λ z. not_2 (sym z))) words.1,
          )
          not_1 not_2 (rw (==_self op) refl) (omega (arith, length-set os x v)) in
      let kept : (h₁ op).class_ ≡ (h op).class_ = rw (==_self op) refl in
      let away : (b : ℕ) → b ≢ op → h₁ b ≡ h b = λ b ne. rw (==_ne b op ne) refl in
      rw (map_fields, e, at, e)
        (record {
          os' = rest.os';
          contents = rest.contents;
          class_ = rest.class_ ∙ kept;
          same_size = rest.same_size ∙ length-set os x v;
          before = λ j l. rest.before j (omega arith) ∙ get_elem?-set_ne os v (λ z. omega arith);
          behind = λ j u l there_j. elim (Bool-cases (j == x)) [
            | inl z ↦
                let same : j ≡ x = (==_iff j x).0 z in
                let u_w : u ≡ w = cc (rw same at there_j, at) in
                (
                  v,
                  rw same (rest.before x (omega arith) ∙ get_elem?-set_self os x v (omega arith)),
                  rw u_w (map_in-BecomesWord h w words),
                )
            | inr z ↦
                let ne : x ≢ j = λ q. ground arith in
                rest.behind j u (ground arith) (get_elem?-set_ne os v ne ∙ there_j)
          ];
          others = λ b ne. rest.others b ne ∙ away b ne;
        })

  -- One object is exchanged, and all others are as they were.
  pub record Turned (op : ℕ) (h h' : Heap) : Type 0 where
    pub words : HaveWords array1 array2 d1 d2 h'
    pub class_ : BecomesWord d1 d2 ((h op).class_) ((h' op).class_)
    pub contents :
        op ≢ array1 → op ≢ array2 → BecomeContents d1 d2 ((h op).contents) ((h' op).contents)
    pub others : (b : ℕ) → b ≢ op → h' b ≡ h b

  HaveWords-keep :
      (h h' : Heap)
      → HaveWords array1 array2 d1 d2 h
      → ((b : ℕ) → (h' b).contents ≡ (h b).contents)
      → HaveWords array1 array2 d1 d2 h'
  HaveWords-keep h h' (e1, e2) same = (same array1 ∙ e1, same array2 ∙ e2)

  class_only :
      (op : ℕ) (h : Heap) (b : ℕ) → (map_class array1 array2 op h b).contents ≡ (h b).contents
  class_only op h b = elim (Bool-cases (b == op)) [
    | inl e ↦ (let same : b ≡ op = (==_iff b op).0 e in rw (e, same) refl)
    | inr n ↦ rw n refl
  ]

  class_turned :
      (op : ℕ) (h : Heap)
      → HaveWords array1 array2 d1 d2 h
      → BecomesWord d1 d2 ((h op).class_) ((map_class array1 array2 op h op).class_)
  class_turned op h words = rw (==_self op) (map_in-BecomesWord h ((h op).class_) words)

  class_others : (op : ℕ) (h : Heap) (b : ℕ) → b ≢ op → map_class array1 array2 op h b ≡ h b
  class_others op h b ne = rw (==_ne b op ne) refl

  walk_object-array :
      (op : ℕ) (h : Heap)
      → HaveWords array1 array2 d1 d2 h
      → (op ≡ array1) ⊎ (op ≡ array2)
      → Turned op h (map_class array1 array2 op h)
  walk_object-array op h words is_array = record {
    words = HaveWords-keep h (map_class array1 array2 op h) words (class_only op h);
    class_ = class_turned op h words;
    contents = λ ne_1 ne_2. elim is_array [ inl e ↦ absurd (ne_1 e) | inr e ↦ absurd (ne_2 e) ];
    others = class_others op h;
  }

  pub walk_object-Turned :
      (op : ℕ) (h : Heap)
      → HaveWords array1 array2 d1 d2 h
      → Turned op h (walk_object array1 array2 op h)
  unfolding walk_object
  walk_object-Turned op h words = elim (Bool-cases (op == array1)) [
    | inl e ↦ rw (walk_object, e) (walk_object-array op h words (inl ((==_iff op array1).0 e)))
    | inr n ↦ elim (Bool-cases (op == array2)) [
      | inl e ↦ rw (walk_object, n, e) (walk_object-array op h words (inr ((==_iff op array2).0 e)))
      | inr n' ↦
          rw (walk_object, n, n')
            (of_contents (λ e. ground arith) (λ e. ground arith) ((h op).contents) refl)
    ]
  ]
    where
      of_contents :
          op ≢ array1
          → op ≢ array2
          → (c : Contents) → (h op).contents ≡ c
          → Turned op h (elim c [
            | fields os ↦ map_fields array1 array2 (length os) 0 op (map_class array1 array2 op h)
            | bytes bs ↦ map_class array1 array2 op h
          ])
      of_contents ne_1 ne_2 (bytes bs) e = record {
        words = HaveWords-keep h (map_class array1 array2 op h) words (class_only op h);
        class_ = class_turned op h words;
        contents = λ _ _. of_bytes d1 d2 _ _ bs e (class_only op h op ∙ e);
        others = class_others op h;
      }
      of_contents ne_1 ne_2 (fields os) e =
          let h₁ : Heap = map_class array1 array2 op h in
          let mapped =
            map_fields-Mapped (length os) 0 op h₁ os (HaveWords-keep h h₁ words (class_only op h))
              ne_1 ne_2 (class_only op h op ∙ e) (omega arith) in
          record {
            words = (
              rw (mapped.others array1 (λ z. ne_1 (sym z))) (class_only op h array1 ∙ words.0),
              rw (mapped.others array2 (λ z. ne_2 (sym z))) (class_only op h array2 ∙ words.1),
            );
            class_ = rw (mapped.class_) (class_turned op h words);
            contents = λ _ _. of_fields d1 d2 _ _ os mapped.os' e mapped.contents (record {
              size = mapped.same_size;
              each = λ j w at. mapped.behind j w (omega arith) at;
            });
            others = λ b ne. mapped.others b ne ∙ class_others op h b ne;
          }
