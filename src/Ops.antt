-- ===== src/Ops.antt =====
-- What app/main.py does for the operators: the size of the thread pool and the two probes. What the
-- limiter of AnyIO does with its tokens is not modelled.
use chekin_interview.Base.{ℕ, ◌+◌, ◌≤◌, arith, []}
use chekin_interview.Json.{num, str, obj, end, field}
use chekin_interview.Database.Exec.{Result, ok, raise}
use chekin_interview.Database.Sessions.{engine_options}
use chekin_interview.Logging.{Log, info, error, log}
use chekin_interview.Config.{Settings}
use chekin_interview.Api.{Response, plain}

-- `lifespan`: the tokens that it leaves the limiter of the worker threads.
unfoldable pub total_tokens : Settings → ℕ
total_tokens settings = settings.db_pool_size + settings.db_max_overflow

-- `lifespan` up to its `yield`: the tokens, and the line that tells them.
unfoldable pub lifespan : Settings → Log → ℕ × Log
unfolding total_tokens
lifespan settings l = (
  total_tokens settings,
  log
      (record {
        level = info;
        event = "startup.thread_pool_sized";
        bound =
            field "threads" (num (total_tokens settings))
              (field "connections" (num (settings.db_pool_size + settings.db_max_overflow)) end);
      })
      l,
)

-- `health`
unfoldable pub health : Response
health = plain (obj (field "status" (str "ok") end))

-- `ready`, from how the statement on a connection ended. Its line has no `error`, the text of the
-- exception.
unfoldable pub ready : Result (Unit {0}) → Log → Response × Log
ready (ok u) l = (plain (obj (field "status" (str "ready") end)), l)
ready (raise x) l = (
  record { status = 503; content = obj (field "status" (str "unavailable") end); headers = [] },
  log (record { level = error; event = "readiness.failed"; bound = end }) l,
)

-- No more threads than the connections that the engine may open.
total_tokens-engine_options :
    (s : Settings) → total_tokens s ≤ (engine_options s).pool_size + (engine_options s).max_overflow
unfolding total_tokens engine_options
total_tokens-engine_options s = omega arith
