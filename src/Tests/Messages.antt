-- ===== src/Tests/Messages.antt =====
-- Web socket messages at concrete inputs.
use put_in_pipe.Common.{
  ◌≡◌, refl, false, [], ◌∷◌, Option, none, some, Bytes, codes, bytes_discrete, String,
}
use put_in_pipe.Tests.{small, sender, receiver, everyone}
use put_in_pipe.Session.{Session, new_session, init_timers}
use put_in_pipe.Session.Delivery.{fresh_session}
use put_in_pipe.Client.{Client, new_client, join_session}
use put_in_pipe.WsMessages.{Message, is_creator, ws_on_message}
use put_in_pipe.WsMessages.Creator.{Acts, ws_on_message-Acts}
use put_in_pipe.WsMessages.Others.{Kept, others_keep_session}

-- A reader of JSON for which every text asks for the end of the session.
abbrev always_terminate : Bytes → Option Message
always_terminate text = some (record {
  action = some (codes "terminate_session");
  content =
      some (record {
        s = λ (k : String). none;
        u = λ (k : String). none;
        has = λ (k : String). false;
      });
})

abbrev fresh : Session
fresh = fresh_session small sender (11 ∷ []) false 0

-- A receiver of the session.
abbrev downloader : Client
downloader = (join_session (11 ∷ []) (new_client (λ id. id) small 0 receiver.id).0).0

not_creator : is_creator everyone downloader fresh ≡ false
unfolding join_session new_client new_session init_timers bytes_discrete
not_creator = refl

ws_on_message-Acts_example :
    Acts small everyone downloader fresh
      (ws_on_message always_terminate small everyone [] false downloader fresh).1
ws_on_message-Acts_example =
    ws_on_message-Acts always_terminate small everyone [] false downloader fresh

others_keep_session_example :
    Kept fresh (ws_on_message always_terminate small everyone [] false downloader fresh).1
others_keep_session_example =
    others_keep_session always_terminate small everyone [] false downloader fresh not_creator
