-- ===== src/Party/Remote/Mapping.antt =====
-- The party made from an answer of the service satisfies what the reducer keeps: each member is
-- stored under its own account id, and the captain, if there is one, is a member.
use fngo.Prelude.{string_eq, String, ◌≡◌, refl, true, Option, some, List, [], ◌∷◌}
use fngo.GoMap
use fngo.GoMap.{GoMap, get-insert}
use fngo.GoTime.{Time}
use fngo.Json.{Codec}
use fngo.Party.Types.{Member}
use fngo.Party.Remote.{RemoteMember, RemoteParty, map_remote_member, map_members, map_remote_party}
use fngo.Party.Reducer.Keys.{IsKeyed, insert-IsKeyed}
use fngo.Party.Reducer.Captain.{captain_in, captain_ok, update-captain_in}

module _ (c : Codec) (parse_time : String → Option Time) where
  map_members-IsKeyed :
      (rms : List RemoteMember) (ms : GoMap String Member) (captain : String)
      → IsKeyed ms
      → IsKeyed (map_members c parse_time rms (ms, captain)).0
  unfolding map_members
  map_members-IsKeyed [] ms captain v = v
  map_members-IsKeyed (rm ∷ rms) ms captain v =
      map_members-IsKeyed rms _ _ (insert-IsKeyed ms _ rm.account_id refl v)

  map_members-captain :
      (rms : List RemoteMember) (ms : GoMap String Member) (captain : String)
      → captain_in captain ms ≡ true
      → let (ms', captain') = map_members c parse_time rms (ms, captain) in
        captain_in captain' ms' ≡ true
  unfolding map_members
  map_members-captain [] ms captain h = h
  map_members-captain (rm ∷ rms) ms captain h =
      map_members-captain rms _ _
        (update-captain_in ms (map_remote_member c parse_time rm) rm.account_id captain rm.role h)

  -- Whatever the service answers, the party made of it has each member under its own account id, and
  -- its captain, if it has one, among its members.
  pub map_remote_party-valid :
      (now : Time) (rp : RemoteParty)
      → let p = map_remote_party c parse_time now rp in
        IsKeyed p.members × (captain_ok (some p) ≡ true)
  unfolding map_remote_party
  map_remote_party-valid now rp = (
    map_members-IsKeyed rp.members [] "" (record { own_key = λ k m h. unfold GoMap.get in cc }),
    map_members-captain rp.members [] "" refl,
  )
