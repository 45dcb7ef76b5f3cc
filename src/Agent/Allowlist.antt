-- ===== src/Agent/Allowlist.antt =====
-- apps/network-agent/app/core/ip_allowlist.py: who may reach the agent. The `ipaddress` library is a
-- parameter: what it reads an address as, a network as its members, and when two addresses are equal.
use infinity_radius.Prelude.{
  Bool, true, false, ◌&&◌, ◌||◌, Option, none, some, List, [], ◌∷◌, ◌≡◌, refl, ◌==◌, if◌then◌else◌,
  Text, text, eq_text, strip, is_empty, Bool-cases, inl, inr, ◌++◌, ap, ==→eq,
}
use infinity_radius.Core.Errors.{if_false, if_true}

pub record Request : Type 0 where
  pub path : Text
  pub host : Option Text
  pub x_forwarded_for : Option Text

-- `path.startswith(_EXEMPT_PATHS)`
unfoldable pub starts_with : Text → Text → Bool
starts_with [] s = true
starts_with (c ∷ p) [] = false
starts_with (c ∷ p) (d ∷ s) = c == d && starts_with p s

unfoldable pub is_exempt : Text → Bool
unfolding starts_with
is_exempt path = starts_with (text "/health") path

-- `host in _TRUSTED_PROXY_HOSTS`
unfoldable pub is_trusted : Option Text → Bool
unfolding eq_text
is_trusted none = false
is_trusted (some h) = eq_text h (text "127.0.0.1") || eq_text h (text "::1")

-- `forwarded.split(",")[0]`
unfoldable pub first_entry : Text → Text
first_entry [] = []
first_entry (c ∷ s) = let rest = first_entry s in if c == b',' then [] else c ∷ rest

unfoldable pub forwarded_or : Option Text → Option Text → Option Text
unfolding first_entry strip
forwarded_or none host = host
forwarded_or (some f) host = if is_empty f then host else some (strip (first_entry f))

-- `_client_ip`
unfoldable pub client_ip : Request → Option Text
unfolding is_trusted forwarded_or
client_ip r = if is_trusted r.host then forwarded_or r.x_forwarded_for r.host else r.host

unfoldable pub has_slash : Text → Bool
has_slash [] = false
has_slash (c ∷ s) = c == b'/' || has_slash s

module _ {A : Type 0} (ip_address : Text → Option A) (ip_network : Text → Option (A → Bool))
    (eq_address : A → A → Bool) where
  abbrev pub is_member : Option (A → Bool) → A → Bool
  is_member none a = false
  is_member (some members) a = members a

  abbrev pub is_same : Option A → A → Bool
  is_same none a = false
  is_same (some b) a = eq_address a b

  -- One entry of the list; an entry that is no address and no network admits nobody.
  unfoldable pub admits : Text → A → Bool
  unfolding has_slash
  admits entry a =
      if has_slash entry then is_member (ip_network entry) a else is_same (ip_address entry) a

  unfoldable pub any_admits : List Text → A → Bool
  unfolding admits
  any_admits [] a = false
  any_admits (e ∷ es) a = if admits e a then true else any_admits es a

  unfoldable pub address_allowed : Option A → List Text → Bool
  unfolding any_admits
  address_allowed none es = false
  address_allowed (some a) es = any_admits es a

  -- `_is_allowed`
  unfoldable pub is_allowed : Option Text → List Text → Bool
  unfolding address_allowed
  is_allowed none es = false
  is_allowed (some ip) es = address_allowed (ip_address ip) es

  -- `IPAllowlistMiddleware.dispatch`: whether the request is passed on; else it is answered 403.
  unfoldable pub dispatch : List Text → Request → Bool
  unfolding is_exempt client_ip is_allowed
  dispatch [] r = true
  dispatch (e ∷ es) r = if is_exempt r.path then true else is_allowed (client_ip r) (e ∷ es)

  -- What an entry stands for: the members of a network that is written with a slash, or one address.
  -- Text that the library reads as neither stands for nobody.
  pub data StandsFor (entry : Text) (a : A) : Type 0 where
    network :
        (address mask : Text) (members : A → Bool)
        → entry ≡ address ++ b'/' ∷ mask
        → ip_network entry ≡ some members
        → members a ≡ true
        → StandsFor entry a
    host : (b : A) → ip_address entry ≡ some b → eq_address a b ≡ true → StandsFor entry a

  has_slash_lem :
      (s : Text)
      → has_slash s ≡ true
      → (address : Text) × (mask : Text) × (s ≡ address ++ b'/' ∷ mask)
  unfolding has_slash
  has_slash_lem [] h = cc
  has_slash_lem (c ∷ s) h = elim (Bool-cases (c == b'/')) [
    | inl y ↦ ([], s, ap (λ x. x ∷ s) (==→eq c b'/' y))
    | inr n ↦
        let (p, q, e) = has_slash_lem s (rw (n) at h) in (c ∷ p, q, ap (λ (x : Text). c ∷ x) e)
  ]

  is_member_lem :
      (o : Option (A → Bool)) (a : A)
      → is_member o a ≡ true
      → (members : A → Bool) × (o ≡ some members) × (members a ≡ true)
  is_member_lem none a h = cc
  is_member_lem (some members) a h = (members, refl, h)

  is_same_lem :
      (o : Option A) (a : A) → is_same o a ≡ true → (b : A) × (o ≡ some b) × (eq_address a b ≡ true)
  is_same_lem none a h = cc
  is_same_lem (some b) a h = (b, refl, h)

  admits-StandsFor : (entry : Text) (a : A) → admits entry a ≡ true → StandsFor entry a
  unfolding admits
  admits-StandsFor entry a h = elim (Bool-cases (has_slash entry)) [
    | inl y ↦
        let (p, q, e) = has_slash_lem entry y in
        let (members, l, m) =
          is_member_lem (ip_network entry) a (if_true (has_slash entry) _ _ y h) in
        network p q members e l m
    | inr n ↦
        let (b, l, m) = is_same_lem (ip_address entry) a (if_false (has_slash entry) _ _ n h) in
        host b l m
  ]

  -- A client that the list admits: its address, and the entry that stands for it.
  pub record IsAdmitted (es : List Text) (ip : Option Text) : Type 0 where
    pub name : Text
    pub address : A
    pub before : List Text
    pub entry : Text
    pub after : List Text
    pub is_name : ip ≡ some name
    pub is_address : ip_address name ≡ some address
    pub is_listed : es ≡ before ++ entry ∷ after
    pub is_admitted : StandsFor entry address

  any_admits_lem :
      (es : List Text) (a : A)
      → any_admits es a ≡ true
      → (before : List Text) × (entry : Text) × (after : List Text) × (es ≡ before ++ entry ∷ after)
        × (admits entry a ≡ true)
  unfolding any_admits
  any_admits_lem [] a h = cc
  any_admits_lem (e ∷ es) a h = elim (Bool-cases (admits e a)) [
    | inl y ↦ ([], e, es, refl, y)
    | inr n ↦
        let (before, entry, after, l, m) = any_admits_lem es a (if_false _ true _ n h) in
        (e ∷ before, entry, after, ap (λ (x : List Text). e ∷ x) l, m)
  ]

  allowed-IsAdmitted :
      (es : List Text) (name : Text) (o : Option A)
      → ip_address name ≡ o
      → address_allowed o es ≡ true
      → IsAdmitted es (some name)
  unfolding address_allowed
  allowed-IsAdmitted es name none p h = cc
  allowed-IsAdmitted es name (some a) p h =
      let (before, entry, after, l, m) = any_admits_lem es a h in
      record {
        name = name;
        address = a;
        before = before;
        entry = entry;
        after = after;
        is_name = refl;
        is_address = p;
        is_listed = l;
        is_admitted = admits-StandsFor entry a m;
      }

  is_allowed-IsAdmitted :
      (es : List Text) (ip : Option Text) → is_allowed ip es ≡ true → IsAdmitted es ip
  unfolding is_allowed
  is_allowed-IsAdmitted es none h = cc
  is_allowed-IsAdmitted es (some name) h = allowed-IsAdmitted es name (ip_address name) refl h

  -- Where a list of source addresses is configured, a request that is passed on and whose path is
  -- not exempt comes from a client whose address is read, and some entry of the list stands for
  -- that address: an entry with a slash that is read as a network with the address among its
  -- members, or one that is read as an address equal to it. An entry that is read as neither
  -- admits nobody.
  pub dispatch-IsAdmitted :
      (e : Text) (es : List Text) (r : Request)
      → is_exempt r.path ≡ false
      → dispatch (e ∷ es) r ≡ true
      → IsAdmitted (e ∷ es) (client_ip r)
  unfolding dispatch
  dispatch-IsAdmitted e es r x h =
      is_allowed-IsAdmitted (e ∷ es) (client_ip r) (if_false (is_exempt r.path) true _ x h)

  -- Whether a request is passed on does not depend on its X-Forwarded-For header, unless its
  -- peer is one of the trusted proxy hosts.
  pub dispatch_ignores_header :
      (es : List Text) (r : Request) (header : Option Text)
      → is_trusted r.host ≡ false
      → dispatch es (record r { x_forwarded_for = header }) ≡ dispatch es r
  unfolding dispatch client_ip
  dispatch_ignores_header [] r header h = refl
  dispatch_ignores_header (e ∷ es) r header h = rw (h) refl
