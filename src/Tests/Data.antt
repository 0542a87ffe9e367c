-- ===== src/Tests/Data.antt =====
-- Channels, responses and timer values of the tests.
use belle_sip.Prelude.{ℕ, Bool, true, false, Option, none, some, []}
use belle_sip.Transaction.Base.{State, Method, Response, TimerConfig, Channel, Base}

-- the defaults of belle_sip_stack_new
abbrev pub defaults : TimerConfig
defaults = record { t1 = 500; t2 = 4000; t4 = 5000 }

abbrev pub udp : Channel
udp = record { is_reliable = false }

abbrev pub tcp : Channel
tcp = record { is_reliable = true }

abbrev pub answer_of : ℕ → Response
answer_of c = record { code = c; to_tag = none; filled = false }

abbrev pub base_of : State → Method → Bool → Option Response → Base
base_of s m client r = record {
  state = s;
  method = m;
  is_client = client;
  has_dialog = false;
  last_response = r;
  channel = some udp;
  timed_out = false;
  config = defaults;
  log = [];
}
