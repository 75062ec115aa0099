-- ===== src/App/Session/Tests.antt =====
-- src/app/SenderApp.cpp: one receiver that streams, turns, sleeps and is another device in the end.
use ipad_second_display.Common.{refl, true, false, List, [], ◌∷◌, none, some, Bytes, codes}
use ipad_second_display.Common.Int.{pos}
use ipad_second_display.App.Panel.{free_panel}
use ipad_second_display.Net.Protocol.Messages.{HelloMsg}
use ipad_second_display.App.Session.{
  Sender, SenderState, ConnectionPhase, no_failure, Setup, built, Answers, prepare,
}
use ipad_second_display.App.Session.Stream.{Round, resized, receiver_sleeping, run_loop, created}
use ipad_second_display.App.Session.Guards.{StreamsSafely, prepare-StreamsSafely}
use ipad_second_display.App.Session.Waiting.{WaitsAsTold, prepare-WaitsAsTold}
use ipad_second_display.App.Session.Ending.{Returns, run_loop-Returns}

abbrev setup : Setup
setup = record { managed = true; usb = false; expected_id = codes "a1" }

abbrev new_sender : Sender
new_sender = record {
  state = SenderState.idle;
  phase = ConnectionPhase.connecting;
  failure = no_failure;
  retry_in_ms = 0;
  width = 0;
  height = 0;
  blocked_by_width = 0;
  blocked_by_height = 0;
  device_id = codes "a1";
  ever_streamed = false;
  disconnected_since = none;
  attached = false;
  guard = false;
  slept = 0;
}

abbrev hello_of : Bytes → HelloMsg
hello_of id = record {
  pixels_wide = pos 2732;
  pixels_high = pos 2048;
  scale = pos 2;
  device = codes "iPad";
  id = id;
  pv = pos 3;
}

abbrev answers_of : Bytes → Answers
answers_of id = record {
  now = 100;
  allowed = true;
  connected = true;
  hello = some (hello_of id);
  welcome_sent = true;
  pipeline = built 2732 2048;
}

abbrev rounds : List Round
rounds =
    record {
      answers = answers_of (codes "a1");
      events = resized 2048 2732 (built 2048 2732) ∷ receiver_sleeping ∷ [];
      ended_at = 900;
    }
    ∷ record { answers = answers_of (codes "b2"); events = []; ended_at = 1900 }
    ∷ []

prepare-StreamsSafely_example :
    StreamsSafely setup free_panel
      (answers_of (codes "a1"))
      (prepare setup new_sender free_panel (answers_of (codes "a1")))
prepare-StreamsSafely_example =
    prepare-StreamsSafely setup new_sender free_panel (answers_of (codes "a1"))

abbrev silent : Answers
silent = record (answers_of []) { hello = none }

prepare-WaitsAsTold_example : WaitsAsTold silent (prepare setup new_sender free_panel silent)
prepare-WaitsAsTold_example = prepare-WaitsAsTold setup new_sender free_panel silent

run_loop-Returns_example : Returns setup 0 (run_loop setup created rounds new_sender free_panel)
run_loop-Returns_example = run_loop-Returns setup rounds new_sender free_panel refl refl
