-- ===== src/Session/Pump.antt =====
-- internal/session/pump.go: the client side of StdioPump: who is attached, and the queue from which
-- its writer takes frames. A connection is a number, as is a queue's pointer, given out in order; the
-- queues of clients that left keep what their writer has still to flush. Sizes are bytes.
pub mod Lossless
pub mod Delivery
use Prim.Native.String.{len}
use ferngeist_acp_gateway.Prelude.{
  ℕ, suc, ◌+◌, ◌*◌, Bool, true, false, not, ◌&&◌, ◌||◌, Option, none, some, List, [], ◌∷◌, ◌++◌,
  String, by_number, length, ltb, ◌==◌, if◌then◌else◌, is_empty, is_some,
}
use ferngeist_acp_gateway.Map
use ferngeist_acp_gateway.Map.{Map}

-- 128 << 20
abbrev pub max_client_queue_bytes : ℕ
max_client_queue_bytes = 128 * 1_048_576

pub record ClientQueue : Type 0 where
  pub frames : List String
  pub bytes : ℕ

abbrev pub new_client_queue : ClientQueue
new_client_queue = record { frames = []; bytes = 0 }

-- `none` where the frame is refused.
unfoldable pub push : String → ClientQueue → Option ClientQueue
push frame q =
    if not (is_empty q.frames) && ltb max_client_queue_bytes (q.bytes + len frame)
    then none
    else some (record { frames = q.frames ++ frame ∷ []; bytes = q.bytes + len frame })

-- `take`: the queue after it is a new one.
abbrev pub take : ClientQueue → ClientQueue × List String
take q = (new_client_queue, q.frames)

pub record Pump : Type 0 where
  pub client : Option ℕ
  pub conn_gen : ℕ
  pub writer_q : Option ℕ
  pub queues : Map ℕ ClientQueue
  pub next_queue : ℕ
  pub closed : Bool
  pub dropped_frames : ℕ

unfoldable pub new_pump : Pump
unfolding Map.empty
new_pump = record {
  client = none;
  conn_gen = 0;
  writer_q = none;
  queues = Map.empty;
  next_queue = 0;
  closed = false;
  dropped_frames = 0;
}

abbrev pub queue_or_new : Option ClientQueue → ClientQueue
queue_or_new none = new_client_queue
queue_or_new (some q) = q

-- `*q`; a pointer that was given out has a queue.
abbrev pub queue_of : ℕ → Pump → ClientQueue
queue_of q p = queue_or_new (Map.lookup q p.queues)

abbrev pub set_queue : ℕ → ClientQueue → Pump → Pump
set_queue q queue p = record p { queues = Map.insert q queue p.queues }

-- `stopWriterLocked`
abbrev pub stop_writer : Pump → Pump
stop_writer p = record p { writer_q = none }

abbrev pub start_writer : Pump → Pump
start_writer p = record p {
  writer_q = some p.next_queue;
  queues = Map.insert p.next_queue new_client_queue p.queues;
  next_queue = suc p.next_queue;
}

-- `queueLocked` into the queue: the client goes where its backlog overflows.
unfoldable pub queue_frames : ℕ → List String → Pump → Pump
unfolding push
queue_frames q [] p = p
queue_frames q (frame ∷ frames) p = elim (push frame (queue_of q p)) [
  | none ↦
      stop_writer
        (record p { client = none; dropped_frames = p.dropped_frames + suc (length frames) })
  | some queue ↦ queue_frames q frames (set_queue q queue p)
]

-- The pointer of the writer's queue is an argument.
unfoldable pub queue_to : List String → Pump → Option ℕ → Pump
unfolding queue_frames
queue_to frames p none = p
queue_to frames p (some q) = if is_some p.client then queue_frames q frames p else p

-- What `forward` does with its frames, for a client that is bound.
unfoldable pub queue_bound : List String → Pump → Pump
unfolding queue_to
queue_bound frames p = queue_to frames p p.writer_q

unfoldable pub queue_client_reply : ℕ → List String → Pump → Pump
unfolding queue_bound
queue_client_reply gen frames p = if gen == p.conn_gen then queue_bound frames p else p

-- The new generation is the pump's.
unfoldable pub attach : Pump → Pump
attach p = stop_writer (record p { client = none; conn_gen = suc p.conn_gen })

unfoldable pub bind : ℕ → ℕ → Pump → Pump × Bool
bind conn gen p =
    if p.closed || not (p.conn_gen == gen)
    then (p, false)
    else (start_writer (record p { client = some conn }), true)

unfoldable pub detach : ℕ → Pump → Pump × Bool
detach gen p =
    if p.conn_gen == gen then (stop_writer (record p { client = none }), true) else (p, false)

-- The writer of a queue takes what is queued; a flush after it stopped is the same step.
unfoldable pub write_queued : ℕ → Pump → Pump × List String
write_queued q p = (set_queue q (take (queue_of q p)).0 p, (take (queue_of q p)).1)

abbrev pub is_client : ℕ → Option ℕ → Bool
is_client conn none = false
is_client conn (some c) = c == conn

-- A write to the connection failed.
unfoldable pub fail_write : ℕ → Pump → Pump
fail_write conn p = if is_client conn p.client then stop_writer (record p { client = none }) else p

-- The end of `StdoutDrainLoop`.
unfoldable pub end_drain : Pump → Pump
end_drain p = stop_writer (record p { closed = true })
