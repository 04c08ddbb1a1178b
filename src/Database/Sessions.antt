-- ===== src/Database/Sessions.antt =====
-- app/db.py: the options of the engine, and one session for a request, closed when the request ends.
use Prim.Native.String.{◌++◌ as text_append}
use chekin_interview.Base.{ℕ, String, ◌≡◌, []}
use chekin_interview.Config.{Settings}
use chekin_interview.Schemas.Money.{whole}
use chekin_interview.Database.{Engine}
use chekin_interview.Database.Exec.{Exec, finally}

-- `sessionmaker` is SQLAlchemy's: a new session has no transaction, and `close` rolls back what is
-- open. Neither commits.
pub record SessionMaker (e : Engine) : Type 0 where
  -- `SessionLocal()`
  pub new_session : e.Session → e.Session
  -- `db.close()`
  pub close : e.Session → e.Session
  pub new_session_idle :
      (s : e.Session)
      → (e.ghost.pending (new_session s) ≡ []) × (e.ghost.own (new_session s) ≡ e.ghost.own s)
  pub close_ends :
      (s : e.Session) → (e.ghost.pending (close s) ≡ []) × (e.ghost.own (close s) ≡ e.ghost.own s)

-- `get_db`, around what FastAPI runs with its session.
unfoldable pub get_db :
    {A : Type 0} (e : Engine) → SessionMaker e → Exec e.Session A → Exec e.Session A
get_db e maker body s = finally body maker.close (maker.new_session s)

-- `create_engine(…)`: what it is asked for.
pub record EngineOptions : Type 0 where
  pub url : String
  pub pool_size : ℕ
  pub max_overflow : ℕ
  -- `connect_args["options"]`
  pub options : String

unfoldable pub engine_options : Settings → EngineOptions
unfolding whole
engine_options settings = record {
  url = settings.database_url;
  pool_size = settings.db_pool_size;
  max_overflow = settings.db_max_overflow;
  options = text_append "-c lock_timeout=" (whole settings.lock_timeout_ms "");
}
