-- ===== src/Tests/Defaults.antt =====
-- What the default settings configure.
use chekin_interview.Base.{◌≡◌, refl}
use chekin_interview.Config.{default_settings}
use chekin_interview.Schemas.Money.{digit}
use chekin_interview.Database.Sessions.{engine_options}
use chekin_interview.Ops.{total_tokens}

default_options : (engine_options default_settings).options ≡ "-c lock_timeout=3000"
unfolding engine_options digit
default_options = refl

default_threads : total_tokens default_settings ≡ 30
unfolding total_tokens
default_threads = refl
