-- ===== src/EventLoop/Owner.antt =====
-- EventLoop.h and EventLoop.cc: the thread that a loop belongs to. `slots` is `t_loopInThisThread`, a
-- variable of each thread; a loop is named by its address.
use netfish.Prelude.{
  ℕ, ◌≡◌, ◌≢◌, ◌⊎◌, refl, Bool, Bool-cases, inl, inr, true, false, not, List, [], ◌∷◌, Option,
  Option-cases, Outcome-cases, none, some, ◌==◌, arith, if◌then◌else◌, Outcome, ok, err, fatal,
  wrong_thread, guard, assert, ◌>>=◌, ◌>>◌,
}

abbrev pub Slots : Type 0
Slots = ℕ → Option ℕ

abbrev pub set_slot : ℕ → Option ℕ → Slots → Slots
set_slot tid loop slots t = if t == tid then loop else slots t

pub record Home : Type 0 where
  pub address : ℕ
  pub thread_id : ℕ
  pub wakeup_fd : ℕ

unfoldable pub create_eventfd : Option ℕ → Outcome ℕ
create_eventfd none = err fatal
create_eventfd (some fd) = ok fd

abbrev pub is_free : Option ℕ → Bool
is_free none = true
is_free (some loop) = false

-- The constructor, in thread `tid`, with what `eventfd` answers.
unfoldable pub create : Option ℕ → ℕ → ℕ → Slots → Outcome (Home × Slots)
unfolding create_eventfd
create answer address tid slots = do
  fd ← create_eventfd answer
  guard (is_free (slots tid)) fatal
  ok (
    record { address = address; thread_id = tid; wakeup_fd = fd },
    set_slot tid (some address) slots,
  )

-- The destructor, in thread `tid`, with the descriptor that it closes.
unfoldable pub destroy : ℕ → Bool → ℕ → Slots → Outcome (Slots × ℕ)
destroy tid looping wakeup_fd slots = do
  assert (not looping)
  ok (set_slot tid none slots, wakeup_fd)

unfoldable pub is_in_loop_thread : ℕ → Home → Bool
is_in_loop_thread tid h = h.thread_id == tid

unfoldable pub assert_in_loop_thread : ℕ → Home → Outcome (Unit {0})
unfolding is_in_loop_thread
assert_in_loop_thread tid h = guard (is_in_loop_thread tid h) wrong_thread

-- Loops that come and go: where each is made, and where it is destroyed.
pub data Event : Type 0 where
  creates : Option ℕ → ℕ → ℕ → Event
  destroys : Bool → Home → Event

abbrev pub without : ℕ → List Home → List Home
without a [] = []
without a (h ∷ hs) = let rest = without a hs in if h.address == a then rest else h ∷ rest

-- The slots, and the loops that there are. A loop is destroyed in its own thread.
unfoldable pub step : Event → Slots × List Home → Outcome (Slots × List Home)
step (creates answer address tid) (slots, live) = do
  r ← create answer address tid slots
  ok (r.1, r.0 ∷ live)
step (destroys looping h) (slots, live) = do
  r ← destroy h.thread_id looping h.wakeup_fd slots
  ok (r.0, without h.address live)

unfoldable pub steps : List Event → Slots × List Home → Outcome (Slots × List Home)
steps [] s = ok s
steps (e ∷ es) s = do s' ← step e s; steps es s'

-- Each loop is the one in its thread's slot.
abbrev pub InSlots : Slots → List Home → Type 0
InSlots slots [] = Unit {0}
InSlots slots (h ∷ hs) = (slots h.thread_id ≡ some h.address) × InSlots slots hs

abbrev pub Exists : Home → List Home → Type 0
Exists h [] = ⊥
Exists h (x ∷ xs) = (h ≡ x) ⊎ Exists h xs

InSlots-Exists :
    (slots : Slots) (h : Home) (hs : List Home)
    → InSlots slots hs
    → Exists h hs
    → slots h.thread_id ≡ some h.address
InSlots-Exists slots h [] v m = elim m [ ]
InSlots-Exists slots h (x ∷ xs) (p, ps) (inl e) = rw e p
InSlots-Exists slots h (x ∷ xs) (p, ps) (inr m) = InSlots-Exists slots h xs ps m

-- A slot that was free belonged to none of them.
InSlots-set_slot :
    (slots : Slots) (tid a : ℕ) (hs : List Home)
    → slots tid ≡ none
    → InSlots slots hs
    → InSlots (set_slot tid (some a) slots) hs
InSlots-set_slot slots tid a [] free v = tt
InSlots-set_slot slots tid a (h ∷ hs) free (p, ps) =
    (ground (arith, free, p), InSlots-set_slot slots tid a hs free ps)

-- A slot that is cleared belonged to the loop that goes.
InSlots-without :
    (slots : Slots) (g : Home) (hs : List Home)
    → slots g.thread_id ≡ some g.address
    → InSlots slots hs
    → InSlots (set_slot g.thread_id none slots) (without g.address hs)
InSlots-without slots g [] own v = tt
InSlots-without slots g (h ∷ hs) own (p, ps) = elim (Bool-cases (h.address == g.address)) [
  | inl same ↦ rw same (InSlots-without slots g hs own ps)
  | inr other ↦ rw other (ground (arith, other, own, p), InSlots-without slots g hs own ps)
]

-- What is asked of a program: it destroys only a loop that there is, and in its own thread.
abbrev pub Allowed : Event → List Home → Type 0
Allowed (creates answer address tid) live = Unit {0}
Allowed (destroys looping h) live = Exists h live

step-InSlots :
    (e : Event) (s s' : Slots × List Home)
    → Allowed e s.1
    → InSlots s.0 s.1
    → step e s ≡ ok s'
    → InSlots s'.0 s'.1
unfolding step create create_eventfd destroy
step-InSlots (creates none a tid) s s' h v e = absurd (cc)
step-InSlots (creates (some fd) a tid) (slots, live) s' h v e = elim (Option-cases (slots tid)) [
  | inl free ↦
      let made : s' ≡ (
        set_slot tid (some a) slots,
        record { address = a; thread_id = tid; wakeup_fd = fd } ∷ live,
      ) =
        ground (arith, rw free at e) in
      rw made ((ground arith, InSlots-set_slot slots tid a live free v))
  | inr (b, taken) ↦ absurd (cc (rw taken at e))
]
step-InSlots (destroys true g) s s' h v e = absurd (cc)
step-InSlots (destroys false g) (slots, live) s' h v e =
    let left : s' ≡ (set_slot g.thread_id none slots, without g.address live) = ground (arith, e) in
    rw left (InSlots-without slots g live (InSlots-Exists slots g live v h) v)

abbrev pub AllAllowed : List Event → Slots × List Home → Type 0
AllAllowed [] s = Unit {0}
AllAllowed (e ∷ es) s =
    Allowed e s.1 × ((s' : Slots × List Home) → step e s ≡ ok s' → AllAllowed es s')

steps-InSlots :
    (es : List Event) (s s' : Slots × List Home)
    → AllAllowed es s
    → InSlots s.0 s.1
    → steps es s ≡ ok s'
    → InSlots s'.0 s'.1
unfolding steps
steps-InSlots [] s s' h v e = ground (arith, e, v)
steps-InSlots (x ∷ es) s s' (h, hs) v e = elim (Outcome-cases (step x s)) [
  | inl (s₁, f) ↦ steps-InSlots es s₁ s' (hs s₁ f) (step-InSlots x s s₁ h v f) (rw f at e)
  | inr (f, g) ↦ absurd (cc (rw g at e))
]

-- However loops are made and destroyed, as long as each is destroyed in its own thread: two loops that
-- exist at the same time belong to different threads or are the same loop, and making a loop in the
-- thread of one that exists ends the process.
pub one_loop_per_thread :
    (es : List Event) (slots : Slots) (live : List Home) (g h : Home) (fd a : ℕ)
    → AllAllowed es ((λ t. none), [])
    → steps es ((λ t. none), []) ≡ ok (slots, live)
    → Exists g live
    → Exists h live
    → ((g.thread_id ≢ h.thread_id) ⊎ (g.address ≡ h.address))
      × (create (some fd) a h.thread_id slots ≡ err fatal)
unfolding create create_eventfd
one_loop_per_thread es slots live g h fd a allowed e mg mh =
    let v = steps-InSlots es ((λ t. none), []) (slots, live) allowed tt e in
    let eg = InSlots-Exists slots g live v mg in
    let eh = InSlots-Exists slots h live v mh in
    (
      elim (Bool-cases (g.thread_id == h.thread_id)) [
        | inl p ↦
            let same : g.thread_id ≡ h.thread_id = ground (arith, p) in
            inr (ground (arith, rw same at eg, eh))
        | inr p ↦ inl (λ q. ground (arith, p, q))
      ],
      rw eh refl,
    )
