-- ===== src/Vpn/Channels/Pairs.antt =====
-- Which sockets `date_socket_accept` joins.
use linux.Common.{ℕ, ◌≡◌, refl, sym, ◌∙◌, subst, Bool, none, List, [], ◌∷◌, inl, inr, ◌⊎◌}
use linux.Vpn.Channels.{Listening, Sockets, put, join}
use linux.Vpn.Channels.Mates.{
  AreMates, AreAlone, IsNotIn, AreDistinct, put-same, put-other, put-AreMates, put-AreAlone,
  append-AreMates, swap-AreMates, append-AreAlone, append-IsNotIn, append-AreDistinct,
}

-- The sockets of two addresses of a channel.
pub record Joined (own remote : Listening) (s : Sockets) : Type 0 where
  pub mates : AreMates s.m_ptr own.busy remote.busy
  pub own_alone : AreAlone s.m_ptr own.free
  pub remote_alone : AreAlone s.m_ptr remote.free
  pub own_distinct : AreDistinct own.free
  pub remote_distinct : AreDistinct remote.free
  pub one_empty : (own.free ≡ []) ⊎ (remote.free ≡ [])

either_way : {A B : Type 0} → A ⊎ B → B ⊎ A
either_way (inl a) = inr a
either_way (inr b) = inl b

pub swap-Joined : (own remote : Listening) (s : Sockets) → Joined own remote s → Joined remote own s
swap-Joined own remote s j = record {
  mates = swap-AreMates s.m_ptr own.busy remote.busy j.mates;
  own_alone = j.remote_alone;
  remote_alone = j.own_alone;
  own_distinct = j.remote_distinct;
  remote_distinct = j.own_distinct;
  one_empty = either_way j.one_empty;
}

-- A socket that has not been accepted yet.
pub record IsNew (own remote : Listening) (s : Sockets) (info : ℕ) : Type 0 where
  pub alone : s.m_ptr info ≡ none
  pub not_own : IsNotIn info own.free
  pub not_remote : IsNotIn info remote.free

pub swap-IsNew :
    (own remote : Listening) (s : Sockets) (info : ℕ)
    → IsNew own remote s info
    → IsNew remote own s info
swap-IsNew own remote s info n = record {
  alone = n.alone;
  not_own = n.not_remote;
  not_remote = n.not_own;
}

-- The address's own free sockets are none where the other one has some.
pub none_free : {x : ℕ} {xs ys : List ℕ} → (ys ≡ []) ⊎ (x ∷ xs ≡ []) → ys ≡ []
none_free (inl e) = e
none_free (inr e) = absurd (cc)

abbrev pub JoinedBy : Listening × Listening × Sockets → Type 0
JoinedBy r = Joined r.0 r.1 r.2

pub join-Joined :
    (is_out : Bool) (info : ℕ) (free busy : List ℕ) (own : Listening) (s : Sockets)
    → Joined own (record { free = free; busy = busy }) s
    → IsNew own (record { free = free; busy = busy }) s info
    → JoinedBy (join is_out info own (record { free = free; busy = busy }) s free)
unfolding join
join-Joined is_out info [] busy own s j n = record {
  mates = j.mates;
  own_alone = append-AreAlone s.m_ptr own.free info j.own_alone n.alone;
  remote_alone = tt;
  own_distinct = append-AreDistinct own.free info j.own_distinct n.not_own;
  remote_distinct = tt;
  one_empty = inr refl;
}
join-Joined is_out info (re_info ∷ rest) busy own s j n =
    let first = put s.m_ptr info re_info in
    let other : first re_info ≡ none =
      put-other s.m_ptr info re_info re_info n.not_remote.0 ∙ j.remote_alone.0 in
    let own_empty = none_free j.one_empty in
    record {
      mates =
          append-AreMates (put first re_info info) own.busy busy info re_info
            (put-AreMates first re_info info own.busy busy other
              (put-AreMates s.m_ptr info re_info own.busy busy n.alone j.mates))
            (put-other first re_info info info (λ e. n.not_remote.0 (sym e))
              ∙ put-same s.m_ptr info re_info)
            (put-same first re_info info);
      own_alone = subst (λ xs. AreAlone (put first re_info info) xs) (sym own_empty) tt;
      remote_alone =
          put-AreAlone first re_info info rest j.remote_distinct.0
            (put-AreAlone s.m_ptr info re_info rest n.not_remote.1 j.remote_alone.1);
      own_distinct = j.own_distinct;
      remote_distinct = j.remote_distinct.1;
      one_empty = inl own_empty;
    }

abbrev pub IsNewBy : Listening × Listening × Sockets → ℕ → Type 0
IsNewBy r info = IsNew r.0 r.1 r.2 info

-- A socket that is still to come stays new.
pub join-IsNew :
    (is_out : Bool) (info : ℕ) (free busy : List ℕ) (own : Listening) (s : Sockets) (later : ℕ)
    → IsNew own (record { free = free; busy = busy }) s later
    → ¬ (later ≡ info)
    → IsNewBy (join is_out info own (record { free = free; busy = busy }) s free) later
unfolding join
join-IsNew is_out info [] busy own s later n d = record {
  alone = n.alone;
  not_own = append-IsNotIn later own.free info n.not_own d;
  not_remote = tt;
}
join-IsNew is_out info (re_info ∷ rest) busy own s later n d = record {
  alone =
      put-other (put s.m_ptr info re_info) re_info info later (λ e. n.not_remote.0 (sym e))
      ∙ put-other s.m_ptr info re_info later (λ e. d (sym e))
      ∙ n.alone;
  not_own = n.not_own;
  not_remote = n.not_remote.1;
}
