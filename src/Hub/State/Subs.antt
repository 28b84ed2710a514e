-- ===== src/Hub/State/Subs.antt =====
-- internal/hub/k8sstore.go: the push subscriptions of the document.
use ccdash.Prelude.{
  ℕ, ◌+◌, List, [], ◌∷◌, ◌++◌, Option, none, some, Text, text_eq, if◌then◌else◌, Result, ok, err,
}
use ccdash.Hub.State.{DocSub, StateDoc, Fault, no_change}

-- What a browser sends, and what the senders of pushes read.
pub record PushSub : Type 0 where
  pub id : ℕ
  pub email : Text
  pub endpoint : Text
  pub p256dh : Text
  pub auth : Text

unfoldable pub sub : DocSub → PushSub
sub s = record {
  id = s.id;
  email = s.email;
  endpoint = s.endpoint;
  p256dh = s.p256dh;
  auth = s.auth;
}

unfoldable pub find_sub : Text → List DocSub → Option DocSub
find_sub endpoint [] = none
find_sub endpoint (s ∷ ss) = if text_eq s.endpoint endpoint then some s else find_sub endpoint ss

-- A write to the first subscription of that endpoint.
unfoldable pub write_sub : Text → (DocSub → DocSub) → List DocSub → List DocSub
write_sub endpoint f [] = []
write_sub endpoint f (s ∷ ss) =
    if text_eq s.endpoint endpoint then f s ∷ ss else s ∷ write_sub endpoint f ss

unfoldable pub drop_sub : Text → List DocSub → List DocSub
drop_sub endpoint [] = []
drop_sub endpoint (s ∷ ss) = if text_eq s.endpoint endpoint then ss else s ∷ drop_sub endpoint ss

unfoldable pub add_sub : Text → PushSub → ℕ → StateDoc → Result Fault StateDoc
unfolding find_sub write_sub
add_sub email new now d = elim (find_sub new.endpoint d.subs) [
  | some s ↦ ok (record d {
    subs =
        write_sub new.endpoint
          (λ x. record x { email = email; p256dh = new.p256dh; auth = new.auth }) d.subs;
  })
  | none ↦
      let nid = d.next_sub_id + 1 in
      ok (record d {
        next_sub_id = nid;
        subs =
            d.subs
            ++ (record {
              id = nid;
              email = email;
              endpoint = new.endpoint;
              p256dh = new.p256dh;
              auth = new.auth;
              created_at = now;
            })
              ∷ [];
      })
]

unfoldable pub remove_sub : Text → StateDoc → Result Fault StateDoc
unfolding find_sub drop_sub
remove_sub endpoint d = elim (find_sub endpoint d.subs) [
  | none ↦ err no_change
  | some s ↦ ok (record d { subs = drop_sub endpoint d.subs })
]

unfoldable pub sub_by_endpoint : Text → StateDoc → Option PushSub
unfolding find_sub sub
sub_by_endpoint endpoint d = elim (find_sub endpoint d.subs) [ none ↦ none | some s ↦ some (sub s) ]

unfoldable pub list_subs : List DocSub → List PushSub
unfolding sub
list_subs [] = []
list_subs (s ∷ ss) = sub s ∷ list_subs ss
