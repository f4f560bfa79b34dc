-- ===== src/Util/Queue/Order.antt =====
-- `Queue::push_back` and `Queue::pop_front` of src/util/queue.h implement a list: first in, first
-- out.
use btree_benchmarks.Prelude.{
  ◌<◌, ◌≡◌, ◌≢◌, refl, sym, ◌∙◌, ap, subst, List, [], ◌∷◌, ◌++◌, arith, ◌==◌, ne→==, ==_iff, false,
  if◌then◌else◌,
}
use btree_benchmarks.Prelude.Memory.{update}
use btree_benchmarks.Blinktree.Node.{Ptr, null}
use btree_benchmarks.Util.Queue.{Queue, new_queue, push_back, pop_front}

abbrev pub IsNotIn : Ptr → List Ptr → Type 0
IsNotIn x [] = Unit {0}
IsNotIn x (y ∷ ys) = (x ≢ y) × IsNotIn x ys

-- From `from` the pointers lead through the items, each of them once, to null.
abbrev pub IsChain : (next : Ptr → Ptr) (from : Ptr) → List Ptr → Type 0
IsChain next from [] = from ≡ null
IsChain next from (x ∷ xs) = (from ≡ x) × (0 < x) × IsNotIn x xs × IsChain next (next x) xs

abbrev pub last_of : List Ptr → Ptr
last_of [] = null
last_of (x ∷ []) = x
last_of (x ∷ y ∷ ys) = last_of (y ∷ ys)

-- The queue holds these items, the first one in front.
pub record IsQueue (q : Queue) (items : List Ptr) : Type 0 where
  pub chain : IsChain q.next q.head items
  pub tail_last : q.tail ≡ last_of items

pub IsChain-update :
    (next : Ptr → Ptr) (x y from : Ptr) (items : List Ptr)
    → IsNotIn x items
    → IsChain next from items
    → IsChain (update next x y) from items
IsChain-update next x y from [] out chain = chain
IsChain-update next x y from (z ∷ zs) out chain = (
  chain.0,
  chain.1,
  chain.2,
  rw (ne→== z x (λ e. out.0 (sym e))) (IsChain-update next x y (next z) zs out.1 chain.3),
)

IsNotIn-append :
    (x item : Ptr) (items : List Ptr)
    → IsNotIn x items
    → x ≢ item
    → IsNotIn x (items ++ (item ∷ []))
IsNotIn-append x item [] out other = (other, tt)
IsNotIn-append x item (y ∷ ys) out other = (out.0, IsNotIn-append x item ys out.1 other)

IsNotIn-last : (x y : Ptr) (ys : List Ptr) → IsNotIn x (y ∷ ys) → x ≢ last_of (y ∷ ys)
IsNotIn-last x y [] out = out.0
IsNotIn-last x y (z ∷ zs) out = IsNotIn-last x z zs out.1

pub last_of-append : (item : Ptr) (items : List Ptr) → item ≡ last_of (items ++ (item ∷ []))
last_of-append item [] = refl
last_of-append item (x ∷ []) = refl
last_of-append item (x ∷ y ∷ ys) = last_of-append item (y ∷ ys)

-- The last item gets a successor.
pub IsChain-append :
    (next : Ptr → Ptr) (item from x : Ptr) (xs : List Ptr)
    → 0 < item
    → next item ≡ null
    → IsNotIn item (x ∷ xs)
    → IsChain next from (x ∷ xs)
    → IsChain (update next (last_of (x ∷ xs)) item) from ((x ∷ xs) ++ (item ∷ []))
IsChain-append next item from x [] some_item ends out chain = (
  chain.0,
  chain.1,
  (λ e. out.0 (sym e), tt),
  rw ((==_iff x x).1 refl) (refl, some_item, tt, rw (ne→== item x out.0) ends),
)
IsChain-append next item from x (y ∷ ys) some_item ends out chain = (
  chain.0,
  chain.1,
  IsNotIn-append x item (y ∷ ys) chain.2 (λ e. out.0 (sym e)),
  rw (ne→== x (last_of (y ∷ ys)) (IsNotIn-last x y ys chain.2))
      (IsChain-append next item (next x) y ys some_item ends out.1 chain.3),
)

IsChain-last :
    (next : Ptr → Ptr) (from x : Ptr) (xs : List Ptr)
    → IsChain next from (x ∷ xs)
    → 0 < last_of (x ∷ xs)
IsChain-last next from x [] chain = chain.1
IsChain-last next from x (y ∷ ys) chain = IsChain-last next (next x) y ys chain.3

-- A new queue holds nothing.
pub new_queue-IsQueue : (next : Ptr → Ptr) → IsQueue (new_queue next) []
unfolding new_queue
new_queue-IsQueue next = record { chain = refl; tail_last = refl }

push_back-behind :
    (item : Ptr) (q : Queue)
    → (q.tail == null) ≡ false
    → push_back item q
      ≡ record { next = update (update q.next item null) q.tail item; head = q.head; tail = item }
unfolding push_back
push_back-behind item q e = rw e refl

pop_front-some :
    (q : Queue)
    → (q.head == null) ≡ false
    → pop_front q ≡ (
      q.head,
      record {
        next = q.next;
        head = q.next q.head;
        tail = if q.next q.head == null then null else q.tail;
      },
    )
unfolding pop_front
pop_front-some q e = rw e refl

-- `push_back` of an item that is not in the queue puts it behind the others.
pub push_back-IsQueue :
    (item : Ptr) (q : Queue) (items : List Ptr)
    → 0 < item
    → IsNotIn item items
    → IsQueue q items
    → IsQueue (push_back item q) (items ++ (item ∷ []))
unfolding push_back
push_back-IsQueue item q [] some_item out is = rw ((==_iff q.tail null).1 is.tail_last) (record {
  chain = (refl, some_item, tt, rw ((==_iff item item).1 refl) refl);
  tail_last = refl;
})
push_back-IsQueue item q (x ∷ xs) some_item out is =
    let some_tail : q.tail ≢ null =
      omega (arith, is.tail_last, IsChain-last q.next q.head x xs is.chain) in
    rw (push_back-behind item q (ne→== q.tail null some_tail)) (record {
      chain =
          subst
            (λ p.
              IsChain (update (update q.next item null) p item) q.head ((x ∷ xs) ++ (item ∷ [])))
            (sym is.tail_last)
            (IsChain-append (update q.next item null) item q.head x xs some_item
              (rw ((==_iff item item).1 refl) refl) out
              (IsChain-update q.next item null q.head (x ∷ xs) out is.chain));
      tail_last = last_of-append item (x ∷ xs);
    })

-- What `pop_front` does to a queue that holds the items.
abbrev pub Pops : Queue → List Ptr → Ptr × Queue → Type 0
Pops q [] r = r ≡ (null, q)
Pops q (x ∷ xs) r = (r.0 ≡ x) × IsQueue r.1 xs

-- `pop_front` returns null for an empty queue and leaves it as it is; otherwise it returns the first
-- item and leaves the others in order.
pub pop_front-Pops : (q : Queue) (items : List Ptr) → IsQueue q items → Pops q items (pop_front q)
unfolding pop_front
pop_front-Pops q [] is = rw ((==_iff q.head null).1 is.chain) refl
pop_front-Pops q (x ∷ []) is =
    let e : q.next q.head ≡ null = ap q.next is.chain.0 ∙ is.chain.3 in
    rw (pop_front-some q (ne→== q.head null (omega (arith, is.chain.0, is.chain.1))))
      (is.chain.0, record { chain = e; tail_last = rw ((==_iff (q.next q.head) null).1 e) refl })
pop_front-Pops q (x ∷ y ∷ ys) is =
    let e : q.next q.head ≡ q.next x = ap q.next is.chain.0 in
    rw (pop_front-some q (ne→== q.head null (omega (arith, is.chain.0, is.chain.1)))) (
      is.chain.0,
      record {
        chain = rw e is.chain.3;
        tail_last =
            rw (ne→== (q.next q.head) null (omega (arith, e, is.chain.3.0, is.chain.3.1)))
              is.tail_last;
      },
    )
