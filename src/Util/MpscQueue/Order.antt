-- ===== src/Util/MpscQueue/Order.antt =====
-- `push_back` and `pop_front` of src/util/mpsc_queue.cpp implement a list: first in, first out.
use btree_benchmarks.Prelude.{
  ◌<◌, ◌≡◌, ◌≢◌, refl, sym, ◌∙◌, ap, subst, List, [], ◌∷◌, ◌++◌, arith, true, ◌==◌, ne→==, ==_iff,
  if◌then◌else◌, Bool-cases, inl, inr,
}
use btree_benchmarks.Prelude.Memory.{update}
use btree_benchmarks.Blinktree.Node.{Ptr, null}
use btree_benchmarks.Util.Queue.Order.{
  IsNotIn, IsChain, last_of, IsChain-update, IsChain-append, last_of-append,
}
use btree_benchmarks.Util.MpscQueue.{MpscQueue, new_mpsc_queue, push, take, pop}

-- The items among the cells.
abbrev pub without : (stub : Ptr) → List Ptr → List Ptr
without stub [] = []
without stub (x ∷ xs) = if x == stub then without stub xs else x ∷ without stub xs

-- The queue's cells, from the oldest one on.
pub record IsLinked (q : MpscQueue) (cell : Ptr) (cells : List Ptr) : Type 0 where
  pub chain : IsChain q.next q.tail (cell ∷ cells)
  pub head_last : q.head ≡ last_of (cell ∷ cells)
  pub some_stub : 0 < q.end

-- The queue holds these items, the first one in front.
abbrev pub Holds : MpscQueue → List Ptr → Type 0
Holds q items =
    (cell : Ptr) × (cells : List Ptr) × IsLinked q cell cells
    × (without q.end (cell ∷ cells) ≡ items)

pub new_mpsc_queue-Holds :
    (next : Ptr → Ptr) (stub : Ptr) → 0 < stub → Holds (new_mpsc_queue next stub) []
new_mpsc_queue-Holds next stub some_stub = (
  stub,
  [],
  record {
    chain = (refl, some_stub, tt, rw ((==_iff stub stub).1 refl) refl);
    head_last = refl;
    some_stub = some_stub;
  },
  rw ((==_iff stub stub).1 refl) refl,
)

without-append :
    (stub item : Ptr) (cells : List Ptr)
    → item ≢ stub
    → without stub (cells ++ (item ∷ [])) ≡ without stub cells ++ (item ∷ [])
without-append stub item [] other = rw (ne→== item stub other) refl
without-append stub item (x ∷ xs) other = elim (Bool-cases (x == stub)) [
  | inl e ↦ rw e (without-append stub item xs other)
  | inr e ↦ rw e (ap (◌∷◌ x) (without-append stub item xs other))
]

push-IsLinked :
    (item : Ptr) (q : MpscQueue) (cell : Ptr) (cells : List Ptr)
    → 0 < item
    → IsNotIn item (cell ∷ cells)
    → IsLinked q cell cells
    → IsLinked (push item q) cell (cells ++ (item ∷ []))
push-IsLinked item q cell cells some_item out is = record {
  chain =
      subst
        (λ p.
          IsChain (update (update q.next item null) p item) q.tail ((cell ∷ cells) ++ (item ∷ [])))
        (sym is.head_last)
        (IsChain-append (update q.next item null) item q.tail cell cells some_item
          (rw ((==_iff item item).1 refl) refl) out
          (IsChain-update q.next item null q.tail (cell ∷ cells) out is.chain));
  head_last = last_of-append item (cell ∷ cells);
  some_stub = is.some_stub;
}

-- `push_back` of an item that is none of the queue's cells puts it behind the others.
pub push-Holds :
    (item : Ptr) (q : MpscQueue) (cell : Ptr) (cells : List Ptr)
    → 0 < item
    → item ≢ q.end
    → IsNotIn item (cell ∷ cells)
    → IsLinked q cell cells
    → Holds (push item q) (without q.end (cell ∷ cells) ++ (item ∷ []))
push-Holds item q cell cells some_item other out is = (
  cell,
  cells ++ (item ∷ []),
  push-IsLinked item q cell cells some_item out is,
  without-append q.end item (cell ∷ cells) other,
)

take-more :
    (tail next : Ptr) (q : MpscQueue)
    → 0 < next
    → take tail next q ≡ (tail, record q { tail = next })
take-more tail next q some_next = rw (ne→== next null (omega (arith, some_next))) refl

-- The last cell leaves the stub alone in the queue.
take-last :
    (q : MpscQueue)
    → 0 < q.end
    → q.tail ≢ q.end
    → q.tail ≡ q.head
    → take q.tail null q ≡ (q.tail, record (push q.end q) { tail = q.end })
take-last q some_stub other e =
    let hit : (q.tail == q.head) ≡ true = (==_iff q.tail q.head).1 e in
    rw (hit, take) (rw (ne→== q.end null (omega (arith, some_stub))) refl)

-- What `pop_front` does to a queue that holds the items.
abbrev pub Pops : MpscQueue → List Ptr → Ptr × MpscQueue → Type 0
Pops q [] r = r ≡ (null, q)
Pops q (x ∷ xs) r = (r.0 ≡ x) × Holds r.1 xs

-- From a cell that is not the stub.
pop-cell :
    (q : MpscQueue) (x : Ptr) (xs : List Ptr)
    → x ≢ q.end
    → IsLinked q x xs
    → Pops q (x ∷ without q.end xs) (take q.tail (q.next q.tail) q)
pop-cell q x [] other is =
    let at_x : q.tail ≡ x = is.chain.0 in
    let ends : q.next q.tail ≡ null = ap q.next at_x ∙ is.chain.3 in
    let last = take-last q is.some_stub (λ e. other (sym at_x ∙ e)) (at_x ∙ sym is.head_last) in
    subst (λ n. Pops q (x ∷ []) (take q.tail n q)) (sym ends)
      (subst (λ r. Pops q (x ∷ []) r) (sym last)
        (
          at_x,
          (
            q.end,
            [],
            record {
              chain = (
                refl,
                is.some_stub,
                tt,
                rw
                    (
                      ne→== q.end q.head (λ e. other (sym is.head_last ∙ sym e)),
                      (==_iff q.end q.end).1 refl,
                    )
                    refl,
              );
              head_last = refl;
              some_stub = is.some_stub;
            },
            rw ((==_iff q.end q.end).1 refl) refl,
          ),
        ))
pop-cell q x (y ∷ ys) other is =
    let at_x : q.tail ≡ x = is.chain.0 in
    let at_y : q.next q.tail ≡ y = ap q.next at_x ∙ is.chain.3.0 in
    subst (λ n. Pops q (x ∷ without q.end (y ∷ ys)) (take q.tail n q)) (sym at_y)
      (subst (λ r. Pops q (x ∷ without q.end (y ∷ ys)) r) (sym (take-more q.tail y q is.chain.3.1))
        (
          at_x,
          (
            y,
            ys,
            record {
              chain = (refl, is.chain.3.1, is.chain.3.2, is.chain.3.3);
              head_last = is.head_last;
              some_stub = is.some_stub;
            },
            refl,
          ),
        ))

pop-not-stub : (q : MpscQueue) → q.tail ≢ q.end → pop q ≡ take q.tail (q.next q.tail) q
pop-not-stub q other = rw (ne→== q.tail q.end other, pop) refl

pop-stub-alone : (q : MpscQueue) → q.tail ≡ q.end → q.next q.tail ≡ null → pop q ≡ (null, q)
pop-stub-alone q e ends =
    rw ((==_iff q.tail q.end).1 e, pop) (rw ((==_iff (q.next q.tail) null).1 ends) refl)

pop-behind-stub :
    (q : MpscQueue) (y : Ptr)
    → q.tail ≡ q.end
    → q.next q.tail ≡ y
    → 0 < y
    → pop q ≡ take y (q.next y) (record q { tail = y })
pop-behind-stub q y e at_y some_y =
    rw ((==_iff q.tail q.end).1 e, pop)
      (rw (ne→== (q.next q.tail) null (omega (arith, at_y, some_y)))
        (ap (λ n. take n (q.next n) (record q { tail = n })) at_y))

-- From the stub.
pop-stub :
    (q : MpscQueue) (cell : Ptr) (cells : List Ptr)
    → cell ≡ q.end
    → IsLinked q cell cells
    → Pops q (without q.end cells) (pop q)
pop-stub q cell [] e is = pop-stub-alone q (is.chain.0 ∙ e) (ap q.next is.chain.0 ∙ is.chain.3)
pop-stub q cell (y ∷ ys) e is =
    let other : y ≢ q.end = λ f. is.chain.2.0 (e ∙ sym f) in
    let behind =
      pop-behind-stub q y (is.chain.0 ∙ e) (ap q.next is.chain.0 ∙ is.chain.3.0) is.chain.3.1 in
    rw (ne→== y q.end other) (
      subst (λ r. Pops q (y ∷ without q.end ys) r) (sym behind)
        (pop-cell (record q { tail = y }) y ys other
          (record {
            chain = (refl, is.chain.3.1, is.chain.3.2, is.chain.3.3);
            head_last = is.head_last;
            some_stub = is.some_stub;
          })))

-- `pop_front` returns null if no cell but the stub is left, and changes nothing; otherwise it returns
-- the oldest item and leaves the others in order.
pub pop-Pops :
    (q : MpscQueue) (cell : Ptr) (cells : List Ptr)
    → IsLinked q cell cells
    → Pops q (without q.end (cell ∷ cells)) (pop q)
pop-Pops q cell cells is = elim (Bool-cases (cell == q.end)) [
  | inr other ↦
      let apart : cell ≢ q.end = λ e. cc (other, (==_iff cell q.end).1 e) in
      rw other (
        subst (λ r. Pops q (cell ∷ without q.end cells) r)
          (sym (pop-not-stub q (λ e. apart (sym is.chain.0 ∙ e)))) (pop-cell q cell cells apart is))
  | inl stub ↦ rw stub (pop-stub q cell cells ((==_iff cell q.end).0 stub) is)
]
