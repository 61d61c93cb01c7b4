-- ===== src/Kernel/Input/Queue.antt =====
-- The ring against a queue of at most 64 bytes that drops what does not fit.
use mik_os.Common.{
  ℕ, zero, suc, ◌+◌, ◌-◌, ◌%◌, ◌≤◌, ◌<◌, ◌≡◌, ◌≢◌, refl, ap, ap₂, ◌∙◌, arith, ltb, if◌then◌else◌,
  Option, none, some, List, [], ◌∷◌, ◌++◌, length, get_or, set, length-set, get_or-set_self,
  get_or-set_ne,
}
use mik_os.Kernel.Input.{cap, Ring, push, pop}

pub record IsValid (r : Ring) : Type 0 where
  pub storage : length r.buf ≡ cap
  pub head_in : r.head < cap
  pub len_in : r.len ≤ cap

-- The `n` bytes from index `h` on, round the end of the array.
abbrev pub stored : List ℕ → ℕ → ℕ → List ℕ
stored buf h zero = []
stored buf h (suc n) = get_or buf h 0 ∷ stored buf ((h + 1) % cap) n

abbrev pub contents : Ring → List ℕ
contents r = stored r.buf r.head r.len

-- The specification.
abbrev pub enqueue : List ℕ → ℕ → List ℕ
enqueue q b = if ltb (length q) cap then q ++ b ∷ [] else q

abbrev pub dequeue : List ℕ → Option ℕ × List ℕ
dequeue [] = (none, [])
dequeue (b ∷ q) = (some b, q)

length-stored : (buf : List ℕ) (h n : ℕ) → length (stored buf h n) ≡ n
length-stored buf h zero = refl
length-stored buf h (suc n) = ap suc (length-stored buf ((h + 1) % cap) n)

-- A write at the index behind the last byte adds that byte at the end.
stored-set :
    (buf : List ℕ) (h n b : ℕ)
    → length buf ≡ cap
    → h < cap
    → n < cap
    → stored (set buf ((h + n) % cap) b) h (suc n) ≡ stored buf h n ++ b ∷ []
stored-set buf h zero b l p q =
    ap (λ x. x ∷ [])
      (ap (λ i. get_or (set buf i b) h 0) (let e : (h + 0) % cap ≡ h = omega arith in e)
        ∙ get_or-set_self buf h b 0 (omega arith))
stored-set buf h (suc n) b l p q =
    ap₂ ◌∷◌ (get_or-set_ne buf ((h + suc n) % cap) h b 0 (omega arith)) (
      ap (λ i. stored (set buf i b) ((h + 1) % cap) (suc n))
        (let e : (h + suc n) % cap ≡ ((h + 1) % cap + n) % cap = omega arith in e)
      ∙ stored-set buf ((h + 1) % cap) n b l (omega arith) (omega arith))

-- `push` keeps the indices in range, and does what the queue does: it appends the byte, or drops
-- it when 64 bytes are waiting.
pub push_refines :
    (r : Ring) (b : ℕ)
    → IsValid r
    → IsValid (push r b) × (contents (push r b) ≡ enqueue (contents r) b)
unfolding push
push_refines r b v = (
  ground (arith, length-set r.buf ((r.head + r.len) % cap) b),
  ground (
    arith,
    length-stored r.buf r.head r.len,
    stored-set r.buf r.head r.len b,
    ap (stored (set r.buf ((r.head + r.len) % cap) b) r.head)
        (let e : r.len + 1 ≡ suc r.len = omega arith in e),
  ),
)

stored_of_pos :
    (buf : List ℕ) (h n : ℕ)
    → n ≢ 0
    → stored buf h n ≡ get_or buf h 0 ∷ stored buf ((h + 1) % cap) (n - 1)
stored_of_pos buf h zero p = absurd (p refl)
stored_of_pos buf h (suc n) p = ap (λ k. stored buf h (suc k)) (omega arith)

-- `pop` keeps the indices in range, and takes the oldest byte, or none from the empty ring.
pub pop_refines :
    (r : Ring)
    → IsValid r
    → IsValid (pop r).1 × (((pop r).0, contents (pop r).1) ≡ dequeue (contents r))
unfolding pop
pop_refines r v = (ground arith, ground (arith, stored_of_pos r.buf r.head r.len))

-- What the interrupt handlers and `sys_read` do to the ring.
pub data Event : Type 0 where
  pushed : ℕ → Event
  popped : Event

-- The bytes, and the empty answers, that the pops of a history return.
abbrev pub run : Ring → List Event → List (Option ℕ)
run r [] = []
run r (pushed b ∷ es) = run (push r b) es
run r (popped ∷ es) = (pop r).0 ∷ run (pop r).1 es

abbrev pub run_queue : List ℕ → List Event → List (Option ℕ)
run_queue q [] = []
run_queue q (pushed b ∷ es) = run_queue (enqueue q b) es
run_queue q (popped ∷ es) = (dequeue q).0 ∷ run_queue (dequeue q).1 es

-- In every interleaving of pushes and pops, a ring with its indices in range returns what the
-- dropping queue of its contents returns.
pub run_refines : (es : List Event) (r : Ring) → IsValid r → run r es ≡ run_queue (contents r) es
run_refines [] r v = refl
run_refines (pushed b ∷ es) r v =
    let (v', e) = push_refines r b v in run_refines es (push r b) v' ∙ ap (λ q. run_queue q es) e
run_refines (popped ∷ es) r v =
    let (v', e) = pop_refines r v in
    ap (λ t. (pop r).0 ∷ t) (run_refines es (pop r).1 v')
    ∙ ap (λ (p : Option ℕ × List ℕ). p.0 ∷ run_queue p.1 es) e
