-- ===== src/Travel.antt =====
-- The way of each event through the module: the pool, the four queues of the state machine, the payloads that wait at a tag
-- (modttpoe/tags.c), and the hands of the code between them. Every function of the module is seen as a sequence of moves.
pub mod Quiet
pub mod Answers
pub mod Queues
pub mod Payloads
pub mod Requeue
pub mod Handlers
pub mod Actions
pub mod Process
pub mod Entries
pub mod Sending
pub mod Setters
pub mod Steering
pub mod Once
pub mod Runs
use ttpoe.Common.{ℕ, ◌≡◌, ◌≢◌, refl, List, [], ◌∷◌, ◌++◌}
use ttpoe.World.{World}
use ttpoe.Queue.{Channel, queue_of}
use ttpoe.Queue.Counts.{CountsOk}

-- Where an event can be.
pub data Place : Type 0 where
  hand pool : Place
  queue : Channel → Place
  payloads : ℕ → Place

-- The events at a place, those in hand given apart.
abbrev pub lists : List ℕ → World → Place → List ℕ
lists h w hand = h
lists h w pool = w.pool_head
lists h w (queue q) = queue_of q w
lists h w (payloads s) = (w.tags s).ncq

-- Nothing moves; of the tags, at the tag `s`.
pub record Still (s : ℕ) (w w' : World) : Type 0 where
  pub pool : w'.pool_head ≡ w.pool_head
  pub rxq : w'.rxq_head ≡ w.rxq_head
  pub txq : w'.txq_head ≡ w.txq_head
  pub akq : w'.akq_head ≡ w.akq_head
  pub inq : w'.inq_head ≡ w.inq_head
  pub ncq : (w'.tags s).ncq ≡ (w.tags s).ncq
  pub pool_count : w'.stats.pool ≡ w.stats.pool
  pub queue_count : w'.stats.queue ≡ w.stats.queue

-- Every other place of the module holds what it held.
abbrev pub Others : Place → World → World → Type 0
Others p w w' = (q : Place) → q ≢ hand → q ≢ p → lists [] w' q ≡ lists [] w q

-- One event taken in hand from the front of a place, or given to the end of a place, or nothing; and one after another. The
-- counters of the pool and of the queues follow.
pub data Moves : List ℕ → World → List ℕ → World → Type 0 where
  still : (h : List ℕ) (w w' : World) → ((s : ℕ) → Still s w w') → Moves h w h w'
  take :
      (h : List ℕ) (p : Place) (i : ℕ) (w w' : World)
      → p ≢ hand
      → lists h w p ≡ i ∷ lists h w' p
      → Others p w w'
      → (CountsOk w → CountsOk w')
      → Moves h w (i ∷ h) w'
  give :
      (h : List ℕ) (p : Place) (i : ℕ) (w w' : World)
      → p ≢ hand
      → lists h w' p ≡ lists h w p ++ (i ∷ [])
      → Others p w w'
      → (CountsOk w → CountsOk w')
      → Moves (i ∷ h) w h w'
  also : {h k l : List ℕ} {w u v : World} → Moves h w k u → Moves k u l v → Moves h w l v
