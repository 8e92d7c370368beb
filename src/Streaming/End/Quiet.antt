-- ===== src/Streaming/End/Quiet.antt =====
-- The methods of app/usecases/end_stream_session_usecase.py that leave the repository alone.
use ai_liver_yura.Common.{
  ℕ, String, ◌≡◌, refl, inl, inr, Option, none, some, Bool-cases, string_eq, nat_eq, pair_eq,
  option_eq, bool_eq, list_eq, is_empty,
}
use ai_liver_yura.Common.Dict.{get}
use ai_liver_yura.Streaming.Session.{StreamSession}
use ai_liver_yura.Streaming.Gate.{Gate}
use ai_liver_yura.Streaming.Repository.{Repository}
use ai_liver_yura.Streaming.Lifecycle.{LifecycleOperation}
use ai_liver_yura.Streaming.Closing.{StreamClosingActivity, StreamClosingStatus}
use ai_liver_yura.Streaming.Services.{Outside, Site, M}
use ai_liver_yura.Streaming.Services.Rules.{
  IsQuiet, quietly, publish-IsQuiet, return-IsQuiet, raise-IsQuiet, require-IsQuiet,
}
use ai_liver_yura.Streaming.End.{
  ApproveNormalStreamEndCommand, Settings, validate_version, validate_emergency, find, reload,
  event, cancel, consult, asked, ensure_adapter_mode, require_main_completed, run_closing, talk,
  closing_found, closing_of, closing_ends, store_closing, settle_closing, new_closing,
  execute_closing,
}
use ai_liver_yura.Streaming.End.Commands.{closing_done, now, closed}

pub event-IsQuiet : (name trace id : String) → IsQuiet (event name trace id)
unfolding event
event-IsQuiet name trace id = publish-IsQuiet name id trace

pub cancel-IsQuiet : IsQuiet cancel
unfolding cancel
cancel-IsQuiet = record { quiet = λ s. refl }

pub now-IsQuiet : IsQuiet now
unfolding now
now-IsQuiet = record { quiet = λ s. refl }

pub reload-IsQuiet : (session : StreamSession) → IsQuiet (reload session)
unfolding reload
reload-IsQuiet session = record { quiet = λ s. refl }

pub find-IsQuiet :
    {A : Type 0} (id : String) {k : Option StreamSession → M A}
    → ((found : Option StreamSession) → IsQuiet (k found))
    → IsQuiet (find id k)
unfolding find
find-IsQuiet id h = record { quiet = λ s. (h (get id s.sessions)).quiet s }

pub validate_version-IsQuiet :
    (version : ℕ) (found : Option StreamSession) → IsQuiet (validate_version version found)
unfolding validate_version
validate_version-IsQuiet version none = raise-IsQuiet _
validate_version-IsQuiet version (some session) = search quietly

pub validate_emergency-IsQuiet :
    (version : ℕ) (found : Option StreamSession) → IsQuiet (validate_emergency version found)
unfolding validate_emergency
validate_emergency-IsQuiet version none = raise-IsQuiet _
validate_emergency-IsQuiet version (some session) = search quietly

module _ (o : Outside) (c : Settings) (alone : (n : ℕ) (r : Repository) → o.meanwhile n r ≡ r) where
  asked-quiet :
      (gate : Option Gate) (op : LifecycleOperation) (id : String) (expected : Option ℕ)
      (trace : String) (s : Site)
      → (asked o c gate op id expected trace s).1.sessions ≡ s.sessions
  asked-quiet none op id expected trace s = refl
  asked-quiet (some g) op id expected trace s = refl

  pub consult-IsQuiet :
      (op : LifecycleOperation) (id : String) (expected : Option ℕ) (trace : String)
      → IsQuiet (consult o c op id expected trace)
  unfolding consult
  consult-IsQuiet op id expected trace = record {
    quiet = λ s. asked-quiet s.gate op id expected trace s;
  }

  pub ensure_adapter_mode-IsQuiet : IsQuiet (ensure_adapter_mode o c)
  unfolding ensure_adapter_mode
  ensure_adapter_mode-IsQuiet = search quietly

  pub require_main_completed-IsQuiet : (id : String) → IsQuiet (require_main_completed o c id)
  unfolding require_main_completed
  require_main_completed-IsQuiet id = record { quiet = λ s. (require-IsQuiet _ _).quiet s }

  store_closing-IsQuiet : (a : StreamClosingActivity) → IsQuiet (store_closing o c a)
  unfolding store_closing
  store_closing-IsQuiet a = record { quiet = λ s. refl }

  settle_closing-IsQuiet :
      (a : StreamClosingActivity) (status : StreamClosingStatus) (failure : Option String)
      → IsQuiet (settle_closing o c a status failure)
  unfolding settle_closing store_closing
  settle_closing-IsQuiet a status failure = record { quiet = λ s. refl }

  new_closing-IsQuiet :
      (session : StreamSession) (trace segment : String)
      → IsQuiet (new_closing o c session trace segment)
  unfolding new_closing
  new_closing-IsQuiet session trace segment = record { quiet = λ s. refl }

  execute_closing-IsQuiet : IsQuiet (execute_closing o c)
  unfolding execute_closing
  execute_closing-IsQuiet = record { quiet = λ s. alone s.calls s.sessions }

  closing_ends-IsQuiet :
      (a : StreamClosingActivity) (trace : String) (failure : Option String)
      → IsQuiet (closing_ends o c a trace failure)
  closing_ends-IsQuiet a trace none =
      search (quietly, settle_closing-IsQuiet, event-IsQuiet) depth 20
  closing_ends-IsQuiet a trace (some failure) =
      search (quietly, settle_closing-IsQuiet, event-IsQuiet) depth 20

  talk-IsQuiet :
      (session : StreamSession) (trace segment : String) → IsQuiet (talk o c session trace segment)
  unfolding talk
  talk-IsQuiet session trace segment =
      search
        (
          quietly, new_closing-IsQuiet, store_closing-IsQuiet, event-IsQuiet,
          execute_closing-IsQuiet, closing_ends-IsQuiet,
        )
        depth 20

  closing_found-IsQuiet :
      (session : StreamSession) (trace : String) (found : Option (Option String))
      → IsQuiet (closing_found o c session trace found)
  closing_found-IsQuiet session trace none = raise-IsQuiet _
  closing_found-IsQuiet session trace (some none) = return-IsQuiet _
  closing_found-IsQuiet session trace (some (some segment)) = talk-IsQuiet session trace segment

  closing_of-IsQuiet :
      (session : StreamSession) (trace : String) (run_of_show : Option String)
      → IsQuiet (closing_of o c session trace run_of_show)
  closing_of-IsQuiet session trace none = record { quiet = λ s. refl }
  closing_of-IsQuiet session trace (some id) = record {
    quiet = λ s. elim (Bool-cases (is_empty id)) [
      | inl y ↦ rw y refl
      | inr n ↦ rw n ((closing_found-IsQuiet session trace _).quiet s)
    ];
  }

  run_closing-IsQuiet :
      (session : StreamSession) (trace : String) → IsQuiet (run_closing o c session trace)
  unfolding run_closing
  run_closing-IsQuiet session trace = search (quietly, consult-IsQuiet, closing_of-IsQuiet) depth 20

  closing_done-IsQuiet : (id : String) → IsQuiet (closing_done id)
  unfolding closing_done
  closing_done-IsQuiet id = record { quiet = λ s. refl }

  pub closed-IsQuiet :
      (command : ApproveNormalStreamEndCommand) (session : StreamSession)
      → IsQuiet (closed o c command session)
  unfolding closed
  closed-IsQuiet command session =
      search (quietly, closing_done-IsQuiet, run_closing-IsQuiet) depth 20
