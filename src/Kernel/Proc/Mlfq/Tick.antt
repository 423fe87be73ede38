-- ===== src/Kernel/Proc/Mlfq/Tick.antt =====
-- What a timer tick and a boost do to the queue and the slice of a process.
use osn_mp.Common.{◌<◌}
use osn_mp.Kernel.Proc.{Proc}
use osn_mp.Kernel.Proc.Mlfq.{nmlfq, slice}

-- A process is in one of the queues and has used less than the slice of its queue.
pub record InQueues (p : Proc) : Type 0 where
  pub queue_in : p.queue < nmlfq
  pub within : p.ticks_used < slice p.queue
