-- ===== src/SyncEcho/Clients/Tests.antt =====
-- The blocking servers and their clients at concrete events.
use cpp_network_programming.Base.{◌≡◌, refl, true, none, [], ◌∷◌, codes, All, IsPrefix}
use cpp_network_programming.SyncEcho.{
  waiting, whole, Round, received, started, buffer, c_string, print_data, c_session, session,
  request, before, read_reply,
}
use cpp_network_programming.SyncEcho.Servers.{
  returned, terminated, Client, fresh_client, running, left, accepted, accept_failed, thread_failed,
  ran, status_after, Reach, boot, next, leave_sync, leave_try, destroy, leave_blocking,
}
use cpp_network_programming.SyncEcho.Servers.Interleavings.{
  sync_server, blocking_server, Echoed, Reach-Echoed,
}
use cpp_network_programming.SyncEcho.Tests.{two_parts}
use cpp_network_programming.SyncEcho.RoundTrip.{texts}
use cpp_network_programming.SyncEcho.Clients.{
  blocking_client, Run, talk, sync_client, reply, prompt, show_reply,
}
use cpp_network_programming.SyncEcho.Clients.Replies.{
  clients_get_replies, Answers, sync, Reach-Answers,
}

abbrev hello : Round
hello = received (codes "hello") true whole

abbrev served : Client
served = record { thread = c_session (hello ∷ []) started; got = codes "hello" }

abbrev detached : Client
detached = record { thread = session (hello ∷ []) started; got = codes "hello" }

-- Two clients are accepted, the second one is served, and an accept fails: the threads that were
-- never joined end the program.
served_reach : Reach sync_server (record { clients = fresh_client ∷ served ∷ []; status = running })
unfolding status_after c_session print_data c_string buffer
served_reach =
    next (next (next boot (accepted refl refl)) (accepted refl refl))
      (ran (fresh_client ∷ []) [] fresh_client hello refl refl refl refl)

sync_end :
    Reach sync_server (record { clients = fresh_client ∷ served ∷ []; status = left terminated })
unfolding leave_sync leave_try destroy
sync_end = next served_reach (accept_failed refl refl)

-- A thread cannot be made for the first client.
no_thread : Reach sync_server (record { clients = []; status = left (returned 0) })
unfolding leave_sync leave_try destroy
no_thread = next boot (thread_failed refl refl)

blocking_end :
    Reach blocking_server (record { clients = detached ∷ []; status = left (returned 0) })
unfolding leave_blocking destroy status_after session
blocking_end =
    next (next (next boot (accepted refl refl)) (ran [] [] fresh_client hello refl refl refl refl))
      (accept_failed refl refl)

Reach-Echoed_example : All Echoed (fresh_client ∷ served ∷ [])
Reach-Echoed_example = Reach-Echoed sync_end

abbrev conversation : Run
conversation = sync_client none (codes "hello") whole (codes "hello")

conversation_shown : conversation.shown ≡ prompt ∷ reply (codes "hello") ∷ []
unfolding sync_client talk show_reply request before read_reply
conversation_shown = refl

conversation_sent : IsPrefix (codes "hello") conversation.sent
unfolding sync_client talk request before
conversation_sent = ([], refl)

served_written : IsPrefix (codes "hello") served.thread.written
unfolding c_session print_data c_string buffer
served_written = ([], refl)

Reach-Answers_example : All (Answers (request (codes "hello"))) conversation.shown
Reach-Answers_example =
    Reach-Answers served_reach (fresh_client ∷ []) [] served refl (sync none whole refl)
      conversation_sent served_written

clients_get_replies_example :
    ((sync_client none (codes "hello\nmore") whole (c_session two_parts started).written).shown
      ≡ prompt ∷ reply (codes "hello") ∷ [])
    × ((blocking_client 3 true
          (codes "hello\nmore")
          whole
          (session two_parts started).written).shown
        ≡ prompt ∷ reply (codes "hello") ∷ [])
    × ((c_session two_parts started).printed ≡ texts two_parts)
    × ((c_session two_parts started).ending ≡ waiting)
unfolding request before
clients_get_replies_example =
    clients_get_replies (codes "hello\nmore") two_parts (tt, (tt, tt)) refl
