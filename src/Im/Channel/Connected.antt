-- ===== src/Im/Channel/Connected.antt =====
-- What `RunOnce` sends on a new connection to the route server: the subscriptions of the moment, and
-- then what stands in `wt`. Both are numbered, and nothing is sent between the two calls that subscribe.
use im_service.Prelude.{ℕ, ◌+◌, List, [], ◌∷◌, ◌++◌}
use im_service.Core.Body.{Message}
use im_service.Im.Channel.Defs.{Channel, re_subscribe, re_subscribe_room}

-- `msg.Seq = seq`.
abbrev pub with_seq : ℕ → Message → Message
with_seq k (Message.message cmd seq version flag body meta) =
    Message.message cmd k version flag body meta

unfoldable pub numbered : ℕ → List Message → List Message
numbered seq [] = []
numbered seq (m ∷ ms) = with_seq (seq + 1) m ∷ numbered (seq + 1) ms

unfoldable pub run_once : Channel → List Message → List Message
run_once c queued =
    let (users, s1) = re_subscribe 0 c.subscribers in
    let (rooms, s2) = re_subscribe_room s1 c.subscribers in users ++ rooms ++ numbered s2 queued
