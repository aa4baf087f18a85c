-- ===== src/Vpn/Channels/Accepted.antt =====
-- The sockets of a channel after any number of `accept`.
use linux.Common.{
  ℕ, ◌≡◌, refl, ap, sym, ◌∙◌, subst, Bool, true, false, List, [], ◌∷◌, ◌++◌, length, arith,
  append_assoc, append-nil, inl, length-append,
}
use linux.Vpn.Channels.{
  Listening, Sockets, ChannelServer, join, date_socket_accept, accept_all, new_channel,
}
use linux.Vpn.Channels.Mates.{weave, append-weave, IsNotIn, AreDistinct}
use linux.Vpn.Channels.Pairs.{
  Joined, IsNew, swap-Joined, swap-IsNew, none_free, join-Joined, join-IsNew,
}

-- The sockets outside and inside.
abbrev pub outside : List (Bool × ℕ) → List ℕ
outside [] = []
outside ((true, x) ∷ accepts) = x ∷ outside accepts
outside ((false, x) ∷ accepts) = outside accepts

abbrev pub inside : List (Bool × ℕ) → List ℕ
inside [] = []
inside ((true, x) ∷ accepts) = inside accepts
inside ((false, x) ∷ accepts) = x ∷ inside accepts

abbrev pub all_of : List (Bool × ℕ) → List ℕ
all_of [] = []
all_of (a ∷ accepts) = a.1 ∷ all_of accepts

join-own :
    (is_out : Bool) (info : ℕ) (free busy : List ℕ) (own : Listening) (s : Sockets)
    → Joined own (record { free = free; busy = busy }) s
    → let r = join is_out info own (record { free = free; busy = busy }) s free in
      r.0.busy ++ r.0.free ≡ (own.busy ++ own.free) ++ (info ∷ [])
unfolding join
join-own is_out info [] busy own s j = sym (append_assoc own.busy own.free (info ∷ []))
join-own is_out info (re_info ∷ rest) busy own s j =
    let e = none_free j.one_empty in
    ap (λ xs. (own.busy ++ (info ∷ [])) ++ xs) e
    ∙ append-nil (own.busy ++ (info ∷ []))
    ∙ ap (λ xs. xs ++ (info ∷ [])) (sym (ap (λ xs. own.busy ++ xs) e ∙ append-nil own.busy))

join-remote :
    (is_out : Bool) (info : ℕ) (free busy : List ℕ) (own : Listening) (s : Sockets)
    → let r = join is_out info own (record { free = free; busy = busy }) s free in
      r.1.busy ++ r.1.free ≡ busy ++ free
unfolding join
join-remote is_out info [] busy own s = refl
join-remote is_out info (re_info ∷ rest) busy own s = append_assoc busy (re_info ∷ []) rest

-- The sockets given to `add_eool`, where the address is the one outside and where it is the one inside.
join-out_watched :
    (info : ℕ) (free busy : List ℕ) (own : Listening) (s : Sockets)
    → Joined own (record { free = free; busy = busy }) s
    → s.watched ≡ weave busy own.busy
    → let r = join true info own (record { free = free; busy = busy }) s free in
      r.2.watched ≡ weave r.1.busy r.0.busy
unfolding join
join-out_watched info [] busy own s j e = e
join-out_watched info (re_info ∷ rest) busy own s j e =
    let m = swap-Joined own (record { free = re_info ∷ rest; busy = busy }) s j in
    ap (λ w. w ++ (re_info ∷ info ∷ [])) e
    ∙ sym (append-weave s.m_ptr busy own.busy re_info info m.mates)

join-in_watched :
    (info : ℕ) (free busy : List ℕ) (own : Listening) (s : Sockets)
    → Joined own (record { free = free; busy = busy }) s
    → s.watched ≡ weave own.busy busy
    → let r = join false info own (record { free = free; busy = busy }) s free in
      r.2.watched ≡ weave r.0.busy r.1.busy
unfolding join
join-in_watched info [] busy own s j e = e
join-in_watched info (re_info ∷ rest) busy own s j e =
    ap (λ w. w ++ (info ∷ re_info ∷ [])) e
    ∙ sym (append-weave s.m_ptr own.busy busy info re_info j.mates)

-- A channel that has accepted `outs` outside and `ins` inside: the sockets of an address are joined in
-- the order of their coming, the first outside with the first inside; those that wait have no other end
-- and are all of one address; the pairs were given to `add_eool` in order, the socket inside first; and
-- a message was asked for each socket outside.
pub record Accepted (c : ChannelServer) (outs ins : List ℕ) : Type 0 where
  pub joined : Joined c.outer c.inner c.sockets
  pub outer_order : c.outer.busy ++ c.outer.free ≡ outs
  pub inner_order : c.inner.busy ++ c.inner.free ≡ ins
  pub watched : c.sockets.watched ≡ weave c.inner.busy c.outer.busy
  pub asked : c.asked ≡ length outs

accept_outer :
    (c : ChannelServer) (outs ins : List ℕ) (info : ℕ)
    → Accepted c outs ins
    → IsNew c.outer c.inner c.sockets info
    → Accepted (date_socket_accept c true info) (outs ++ (info ∷ [])) ins
unfolding date_socket_accept
accept_outer c outs ins info a n = record {
  joined = join-Joined true info c.inner.free c.inner.busy c.outer c.sockets a.joined n;
  outer_order =
      join-own true info c.inner.free c.inner.busy c.outer c.sockets a.joined
      ∙ ap (λ xs. xs ++ (info ∷ [])) a.outer_order;
  inner_order = join-remote true info c.inner.free c.inner.busy c.outer c.sockets ∙ a.inner_order;
  watched = join-out_watched info c.inner.free c.inner.busy c.outer c.sockets a.joined a.watched;
  asked = omega (arith, a.asked, length-append outs (info ∷ []));
}

accept_inner :
    (c : ChannelServer) (outs ins : List ℕ) (info : ℕ)
    → Accepted c outs ins
    → IsNew c.outer c.inner c.sockets info
    → Accepted (date_socket_accept c false info) outs (ins ++ (info ∷ []))
unfolding date_socket_accept
accept_inner c outs ins info a n =
    let j = swap-Joined c.outer c.inner c.sockets a.joined in
    let r = join false info c.inner c.outer c.sockets c.outer.free in
    record {
      joined = swap-Joined r.0 r.1 r.2 (
          join-Joined false info c.outer.free c.outer.busy c.inner c.sockets j
            (swap-IsNew c.outer c.inner c.sockets info n));
      outer_order =
          join-remote false info c.outer.free c.outer.busy c.inner c.sockets ∙ a.outer_order;
      inner_order =
          join-own false info c.outer.free c.outer.busy c.inner c.sockets j
          ∙ ap (λ xs. xs ++ (info ∷ [])) a.inner_order;
      watched = join-in_watched info c.outer.free c.outer.busy c.inner c.sockets j a.watched;
      asked = a.asked;
    }

abbrev IsNewFor : ChannelServer → ℕ → Type 0
IsNewFor c x = IsNew c.outer c.inner c.sockets x

accept-IsNew :
    (c : ChannelServer) (is_out : Bool) (info x : ℕ)
    → IsNewFor c x
    → ¬ (info ≡ x)
    → IsNewFor (date_socket_accept c is_out info) x
unfolding date_socket_accept
accept-IsNew c true info x n d =
    join-IsNew true info c.inner.free c.inner.busy c.outer c.sockets x n (λ e. d (sym e))
accept-IsNew c false info x n d =
    let r = join false info c.inner c.outer c.sockets c.outer.free in
    swap-IsNew r.0 r.1 r.2 x (
      join-IsNew false info c.outer.free c.outer.busy c.inner c.sockets x
        (swap-IsNew c.outer c.inner c.sockets x n) (λ e. d (sym e)))

abbrev AllNew : ChannelServer → List ℕ → Type 0
AllNew c [] = Unit
AllNew c (x ∷ xs) = IsNewFor c x × AllNew c xs

accept-AllNew :
    (c : ChannelServer) (is_out : Bool) (info : ℕ) (xs : List ℕ)
    → AllNew c xs
    → IsNotIn info xs
    → AllNew (date_socket_accept c is_out info) xs
accept-AllNew c is_out info [] n d = tt
accept-AllNew c is_out info (x ∷ xs) n d =
    (accept-IsNew c is_out info x n.0 d.0, accept-AllNew c is_out info xs n.1 d.1)

accept_all-Accepted :
    (accepts : List (Bool × ℕ)) (c : ChannelServer) (outs ins : List ℕ)
    → Accepted c outs ins
    → AllNew c (all_of accepts)
    → AreDistinct (all_of accepts)
    → Accepted (accept_all c accepts) (outs ++ outside accepts) (ins ++ inside accepts)
unfolding accept_all
accept_all-Accepted [] c outs ins a n d =
    subst (λ xs. Accepted c xs (ins ++ [])) (sym (append-nil outs))
      (subst (λ ys. Accepted c outs ys) (sym (append-nil ins)) a)
accept_all-Accepted ((true, x) ∷ accepts) c outs ins a n d =
    subst
      (λ xs. Accepted (accept_all (date_socket_accept c true x) accepts) xs (ins ++ inside accepts))
      (append_assoc outs (x ∷ []) (outside accepts))
      (accept_all-Accepted accepts (date_socket_accept c true x) (outs ++ (x ∷ [])) ins
        (accept_outer c outs ins x a n.0) (accept-AllNew c true x (all_of accepts) n.1 d.0) d.1)
accept_all-Accepted ((false, x) ∷ accepts) c outs ins a n d =
    subst
      (λ ys.
        Accepted (accept_all (date_socket_accept c false x) accepts) (outs ++ outside accepts) ys)
      (append_assoc ins (x ∷ []) (inside accepts))
      (accept_all-Accepted accepts (date_socket_accept c false x) outs (ins ++ (x ∷ []))
        (accept_inner c outs ins x a n.0) (accept-AllNew c false x (all_of accepts) n.1 d.0) d.1)

all_new : (xs : List ℕ) → AllNew new_channel xs
all_new [] = tt
all_new (x ∷ xs) = (record { alone = refl; not_own = tt; not_remote = tt }, all_new xs)

-- Where a new channel accepts different sockets, in any order of its two addresses: the first outside is
-- joined with the first inside, the second with the second, and so on, each being the other end of the
-- other; those that still wait have no other end and are all of one address; the pairs were given to
-- `add_eool` in order, the socket inside first; and one message was asked for each socket outside.
pub accepts-Accepted :
    (accepts : List (Bool × ℕ))
    → AreDistinct (all_of accepts)
    → Accepted (accept_all new_channel accepts) (outside accepts) (inside accepts)
accepts-Accepted accepts d =
    accept_all-Accepted accepts new_channel [] []
      (record {
        joined = record {
          mates = tt;
          own_alone = tt;
          remote_alone = tt;
          own_distinct = tt;
          remote_distinct = tt;
          one_empty = inl refl;
        };
        outer_order = refl;
        inner_order = refl;
        watched = refl;
        asked = refl;
      })
      (all_new (all_of accepts)) d
