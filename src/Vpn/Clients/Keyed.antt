-- ===== src/Vpn/Clients/Keyed.antt =====
-- The ids of the channels, as the keys of the clients' tables.
use linux.Common.{
  ℕ, suc, ◌≤◌, ◌<◌, ◌≡◌, refl, sym, ◌∙◌, subst, Bool, true, false, none, List, [], ◌∷◌, ◌==◌, ltb,
  if◌then◌else◌, arith, Option-cases, inl, inr,
}
use linux.Vpn.Clients.{
  find, insert, erase, change, ChannelInfo, ClientInfo, Server, max_id, on_connected,
  delete_channel_server, delete_channels, on_disconnected, create_channel_server, Event, connects,
  disconnects, creates, happen, happen_all, Addresses,
}
use linux.Vpn.Clients.Tables.{
  AllEntries, find-AllEntries, insert-AllEntries, change-AllEntries, erase-AllEntries,
}

-- A channel stands under its id.
abbrev pub IsKeyed : ℕ → ChannelInfo → Type 0
IsKeyed k i = i.channel_id ≡ k

abbrev pub HasKeyed : ℕ → ClientInfo → Type 0
HasKeyed k c = AllEntries IsKeyed c.channel_map

abbrev pub AllKeyed : Server → Type 0
AllKeyed s = AllEntries HasKeyed s.client_map

max_id-le : (es : List (ℕ × ChannelInfo)) (m : ℕ) → m ≤ max_id es m
unfolding max_id
max_id-le [] m = omega arith
max_id-le (e ∷ es) m =
    let m' = if ltb m e.1.channel_id then e.1.channel_id else m in
    let le : m ≤ m' = ground arith in omega (arith, le, max_id-le es m')

-- No id is above the maximum.
find-max_id :
    (es : List (ℕ × ChannelInfo)) (m k : ℕ)
    → AllEntries IsKeyed es
    → max_id es m < k
    → find es k ≡ none
unfolding find max_id
find-max_id [] m k a l = refl
find-max_id (e ∷ es) m k a l =
    let m' = if ltb m e.1.channel_id then e.1.channel_id else m in
    let below : e.1.channel_id ≤ m' = ground arith in
    let other : (e.0 == k) ≡ false = ground (arith, a.0, below, max_id-le es m', l) in
    rw other (find-max_id es m' k a.1 l)

-- The id that `create_channel_server` takes is free.
pub next_id-free :
    (es : List (ℕ × ChannelInfo)) → AllEntries IsKeyed es → find es (suc (max_id es 0)) ≡ none
next_id-free es a = find-max_id es 0 (suc (max_id es 0)) a (omega arith)

delete_channel_server-client_map :
    (s : Server) (client_id channel_id : ℕ)
    → (delete_channel_server s client_id channel_id).client_map ≡ s.client_map
unfolding delete_channel_server
delete_channel_server-client_map s client_id channel_id =
    elim (Option-cases (find s.channel_map (linux.Vpn.Clients.key client_id channel_id))) [
      | inl e ↦ rw (e, delete_channel_server) refl
      | inr (c, e) ↦ rw (e, delete_channel_server) refl
    ]

delete_channels-client_map :
    (s : Server) (client_id : ℕ) (es : List (ℕ × ChannelInfo))
    → (delete_channels s client_id es).client_map ≡ s.client_map
unfolding delete_channels
delete_channels-client_map s client_id [] = refl
delete_channels-client_map s client_id (e ∷ es) =
    delete_channels-client_map (delete_channel_server s client_id e.1.channel_id) client_id es
    ∙ delete_channel_server-client_map s client_id e.1.channel_id

on_disconnected-AllKeyed :
    (s : Server) (client_id : ℕ) → AllKeyed s → AllKeyed (on_disconnected s client_id)
unfolding on_disconnected
on_disconnected-AllKeyed s client_id a = elim (Option-cases (find s.client_map client_id)) [
  | inl e ↦ rw (e, on_disconnected) a
  | inr (c, e) ↦
      rw (e, on_disconnected)
        (erase-AllEntries HasKeyed (delete_channels s c.client_id c.channel_map).client_map
          client_id
          (subst (λ m. AllEntries HasKeyed m)
            (sym (delete_channels-client_map s c.client_id c.channel_map)) a))
]

create_channel_server-AllKeyed :
    (s : Server) (client_id : ℕ) (addresses : Addresses) (listens : Bool)
    → AllKeyed s
    → AllKeyed (create_channel_server s client_id addresses listens).0
unfolding create_channel_server
create_channel_server-AllKeyed s client_id addresses false a =
    elim (Option-cases (find s.client_map client_id)) [
      | inl e ↦ rw (e, create_channel_server) a
      | inr (c, e) ↦ rw (e, create_channel_server) a
    ]
create_channel_server-AllKeyed s client_id addresses true a =
    elim (Option-cases (find s.client_map client_id)) [
      | inl e ↦ rw (e, create_channel_server) a
      | inr (c, e) ↦
          rw (e, create_channel_server)
            (change-AllEntries HasKeyed s.client_map client_id _ a (
              insert-AllEntries IsKeyed c.channel_map (suc (max_id c.channel_map 0)) _
                (find-AllEntries HasKeyed s.client_map client_id c a e) refl))
    ]

happen-AllKeyed : (s : Server) (e : Event) → AllKeyed s → AllKeyed (happen s e)
unfolding happen on_connected
happen-AllKeyed s (connects client_id) a = insert-AllEntries HasKeyed s.client_map client_id _ a tt
happen-AllKeyed s (disconnects client_id) a = on_disconnected-AllKeyed s client_id a
happen-AllKeyed s (creates client_id addresses listens) a =
    create_channel_server-AllKeyed s client_id addresses listens a

pub happen_all-AllKeyed :
    (events : List Event) (s : Server) → AllKeyed s → AllKeyed (happen_all s events)
unfolding happen_all
happen_all-AllKeyed [] s a = a
happen_all-AllKeyed (e ∷ events) s a =
    happen_all-AllKeyed events (happen s e) (happen-AllKeyed s e a)
