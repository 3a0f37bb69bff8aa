-- ===== src/Client/Casts.antt =====
-- The client's as<T>() of what servers reply.
use text.Mathlib.Text.{◌==◌ as ◌==ˢ◌}
use distributed_replicated_c.Result.{Result}
use distributed_replicated_c.Exec.{Exec}
use distributed_replicated_c.Operation.Request.{Request}
use distributed_replicated_c.Client.{Client}
