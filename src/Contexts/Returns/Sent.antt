-- ===== src/Contexts/Returns/Sent.antt =====
-- A send and the return from it (vm/interp.c): where the new context goes when it returns, with the tail
-- calls that leave out the sender.
use littlesmalltalk.Prelude.{
  ℕ, suc, ◌<◌, ◌≡◌, ◌≢◌, ◌⊎◌, inl, inr, refl, sym, ap, ◌∙◌, ◌+◌, ◌*◌, List, some, length, get_elem?,
  set, false, ◌==◌, arith,
}
use littlesmalltalk.Prelude.Result.{Result, ok}
use littlesmalltalk.Image.Graph.{Oop, null, ref, Object}
use littlesmalltalk.Contexts.{Memory, Known, Machine, running, is_same}
use littlesmalltalk.Contexts.Yields.{
  Yields, Yields-ok, Yields->>=, Yields-map, object, get-at, put-Only,
}
use littlesmalltalk.Contexts.Sends.{tail_kind, return_to, enter_method}
use littlesmalltalk.Contexts.Sends.Ready.{Ready, Called, saved, saved-other, saved_place}
use littlesmalltalk.Contexts.Sends.Called.{enter_method-Called}
use littlesmalltalk.Contexts.Returns.{do_return, do_return_2, resume}

-- A return from the context that a send has entered goes on as a return to where `return_to` says.
enter_method-returns :
    (k : Known) (gcollect : ℕ → Memory → Result (Oop × Memory)) (m : Machine) (r : Ready m)
    (back : Oop)
    → return_to m.memory (tail_kind r.b) m.context ≡ ok back
    → Yields
        (λ m'. Called k m r back m' × ((v : Oop) → do_return k v m' ≡ do_return_2 k back v m'))
        (enter_method k gcollect m)
unfolding do_return
enter_method-returns k gcollect m r back returns =
    Yields-map (enter_method-Called k gcollect m r back returns) (λ m' called. (
      called,
      λ v.
          rw
            (
              called.context,
              get-at m'.memory called.n 6 (ref k.context_class) back _ called.there refl,
            )
            refl,
    ))

-- The context to go back to, by the byte behind the send and the fields of the objects: 242 is a
-- StackReturn, which a context does to the one in its field 6, and 243 a BlockReturn, which a block's
-- context does to field 6 of the context that created the block, its own field 8. In front of any other
-- byte it is the sender.
abbrev pub GoesBackTo : (m : Machine) → Ready m → Oop → Type 0
GoesBackTo m r back =
    ((r.b ≢ 242) × (r.b ≢ 243) × (back ≡ m.context))
    ⊎ ((r.b ≡ 242) × (get_elem? r.cs 6 ≡ some back))
    ⊎ ((r.b ≡ 243)
        × (creator : ℕ) × (creator_class : Oop) × (creator_fields : List Oop) × (get_elem? r.cs 8
            ≡ some (ref creator))
        × (m.memory.heap creator ≡ some (object creator_class creator_fields))
        × (get_elem? creator_fields 6 ≡ some back))

GoesBackTo-return_to :
    (m : Machine) (r : Ready m) (back : Oop)
    → GoesBackTo m r back
    → return_to m.memory (tail_kind r.b) m.context ≡ ok back
unfolding return_to
GoesBackTo-return_to m r back (inl (not_stack, not_block, sender)) =
    let no_2 : (r.b == 15 * 16 + 2) ≡ false = ground arith in
    let no_3 : (r.b == 15 * 16 + 3) ≡ false = ground arith in rw (no_2, no_3) (ap ok (sym sender))
GoesBackTo-return_to m r back (inr (inl (stack, previous))) =
    rw (stack, r.context) (get-at m.memory r.c 6 r.cc back r.cs r.context_there previous)
GoesBackTo-return_to m r back (inr (inr (block, creator, cc_, cs, own, there, previous))) =
    rw (block, r.context, get-at m.memory r.c 8 r.cc _ r.cs r.context_there own)
      (get-at m.memory creator 6 cc_ back cs there previous)

-- A return from the context that a send has entered goes on as a return to the sender where neither a
-- StackReturn nor a BlockReturn follows the send, to the context in field 6 of the sender in front of a
-- StackReturn, and to the context in field 6 of the creator of the sender's block in front of a
-- BlockReturn. The send returns, where there is room.
pub enter_method-do_return :
    (k : Known) (gcollect : ℕ → Memory → Result (Oop × Memory)) (m : Machine) (r : Ready m)
    (back : Oop)
    → GoesBackTo m r back
    → Yields
        (λ m'. Called k m r back m' × ((v : Oop) → do_return k v m' ≡ do_return_2 k back v m'))
        (enter_method k gcollect m)
enter_method-do_return k gcollect m r back goes =
    enter_method-returns k gcollect m r back (GoesBackTo-return_to m r back goes)

-- The sender: its stack with room for the value, and its method.
pub record Sender (k : Known) (m : Machine) (r : Ready m) : Type 0 where
  pub st : ℕ
  pub st_class : Oop
  pub values : List Oop
  pub mine : ℕ
  pub mine_class : Oop
  pub parts : List Oop
  pub code : Oop
  pub not_nil : r.c ≢ k.nil_object
  pub stack : get_elem? r.cs 3 ≡ some (ref st)
  pub stack_there : m.memory.heap st ≡ some (object st_class values)
  pub stack_apart : st ≢ r.c
  pub stack_room : m.stack_top < length values
  pub method : get_elem? r.cs 0 ≡ some (ref mine)
  pub method_there : m.memory.heap mine ≡ some (object mine_class parts)
  pub method_apart : (mine ≢ r.c) × (mine ≢ st)
  pub byte_codes : get_elem? parts 1 ≡ some code

-- The sender goes on behind its send, with the value on its stack.
pub record Resumed (k : Known) (m : Machine) (r : Ready m) (s : Sender k m r) (v : Oop)
    (m'' : Machine) : Type 0 where
  pub context : m''.context ≡ m.context
  pub stack : m''.stack ≡ ref s.st
  pub stack_top : m''.stack_top ≡ suc m.stack_top
  pub byte_pointer : m''.byte_pointer ≡ m.byte_pointer
  pub method : (m''.method ≡ ref s.mine) × (m''.bp ≡ s.code)
  pub value : m''.memory.heap s.st ≡ some (object s.st_class (set s.values m.stack_top v))
  pub keeps :
      (b : ℕ) (o : Object)
      → b ≢ r.c
      → b ≢ s.st
      → m.memory.heap b ≡ some o
      → m''.memory.heap b ≡ some o

module _ (k : Known) (m : Machine) (r : Ready m) (s : Sender k m r) where
  resume-Resumed :
      (back : Oop) (m' : Machine) (v : Oop)
      → Called k m r back m'
      → Yields (Resumed k m r s v) (resume k m.context v m')
  unfolding resume
  resume-Resumed back m' v called =
      let sv : List Oop = saved m r.cs in
      let place : m'.memory.heap r.c ≡ some (object r.cc sv) = called.place in
      let field_3 = saved-other m r.cs 3 (ref s.st) (λ e. omega arith) (λ e. omega arith) s.stack in
      let field_0 =
        saved-other m r.cs 0 (ref s.mine) (λ e. omega arith) (λ e. omega arith) s.method in
      let (field_5, field_4) = saved_place m r.cs r.context_size in
      let st_there : m'.memory.heap s.st ≡ some (object s.st_class s.values) =
        called.keeps s.st _ s.stack_apart s.stack_there in
      rw
        (
          r.context,
          get-at m'.memory r.c 3 r.cc _ sv place field_3,
          get-at m'.memory r.c 5 r.cc _ sv place field_5,
        )
        (Yields->>= _
          (put-Only m'.memory.heap m'.memory s.st m.stack_top s.st_class v s.values
            (st_there, λ b ne. refl) s.stack_room)
          (λ mem (only, same).
            let place' : mem.heap r.c ≡ some (object r.cc sv) =
              only.1 r.c (λ e. s.stack_apart (sym e)) ∙ place in
            let (not_c, not_st) = s.method_apart in
            let code_there : mem.heap s.mine ≡ some (object s.mine_class s.parts) =
              only.1 s.mine not_st ∙ called.keeps s.mine _ not_c s.method_there in
            rw
              (
                get-at mem r.c 0 r.cc _ sv place' field_0,
                get-at mem s.mine 1 s.mine_class _ s.parts code_there s.byte_codes,
                get-at mem r.c 4 r.cc _ sv place' field_4,
              )
              (Yields-ok _ (record {
                context = sym r.context;
                stack = refl;
                stack_top = refl;
                byte_pointer = refl;
                method = (refl, refl);
                value = only.0;
                keeps = λ b o ne_c ne_st e. only.1 b ne_st ∙ called.keeps b o ne_c e;
              }))))

  -- A send that no return follows, and then a return with `v`: where there is room, both return, and the
  -- sender goes on behind its send with `v` pushed on its stack; every other object is as it was.
  pub enter_method-Resumed :
      (gcollect : ℕ → Memory → Result (Oop × Memory)) (v : Oop)
      → tail_kind r.b ≡ 0
      → Yields
          (λ m'.
            Yields
              (λ out. (m'' : Machine) × (out ≡ running m'') × Resumed k m r s v m'')
              (do_return k v m'))
          (enter_method k gcollect m)
  unfolding do_return_2 return_to is_same
  enter_method-Resumed gcollect v plain =
      Yields-map (enter_method-returns k gcollect m r m.context (rw plain refl))
        (λ m' (called, returns).
          let goes_on : (r.c == k.nil_object) ≡ false = (let ne = s.not_nil in ground arith) in
          let not_null : is_same m.context null ≡ false = rw (r.context) refl in
          let not_nil : is_same m.context (ref k.nil_object) ≡ false = rw (r.context) goes_on in
          rw (returns v, not_null, not_nil)
            (Yields->>= _ (resume-Resumed m.context m' v called)
              (λ m'' resumed. Yields-ok (running m'') (m'', refl, resumed))))
