-- ===== src/Description.antt =====
-- The description of a node in src/shardcache_node.c: its label and its addresses, and the string that
-- says both.
pub mod Strings
pub mod RoundTrip
mod Tests
use libgroupcache.Base.{
  ℕ, ◌+◌, ◌-◌, Bool, true, false, not, ◌&&◌, ◌||◌, Option, none, some, List, [], ◌∷◌, ◌++◌, length,
  take, leb, ◌==◌, if◌then◌else◌,
}

infixl 5 ◌>>=◌
abbrev pub ◌>>=◌ {ℓ κ} : {A : Type ℓ} {B : Type κ} → Option A → (A → Option B) → Option B
none >>= f = none
some a >>= f = f a

-- struct _shardcache_node_s; the number of replicas is that of its addresses.
pub record Description : Type 0 where
  pub label : List ℕ
  pub address : List (List ℕ)
  pub string : List ℕ

abbrev pub colon : ℕ
colon = 58

abbrev pub semicolon : ℕ
semicolon = 59

abbrev pub is_digit : ℕ → Bool
is_digit c = leb 48 c && leb c 57

-- [a-z0-9_\.\-], in either case; the backslash is a character of the set.
unfoldable pub is_host_char : ℕ → Bool
is_host_char c =
    (leb 97 c && leb c 122)
    || (leb 65 c && leb c 90)
    || is_digit c
    || (c == 95)
    || (c == 92)
    || (c == 46)
    || (c == 45)

unfoldable pub all_digits : List ℕ → Bool
all_digits [] = true
all_digits (c ∷ cs) = is_digit c && all_digits cs

abbrev pub is_empty : List ℕ → Bool
is_empty [] = true
is_empty (c ∷ cs) = false

-- (:[0-9]+)?$
unfoldable pub ends_with_port : List ℕ → Bool
ends_with_port [] = true
ends_with_port (c ∷ cs) = (c == colon) && (not (is_empty cs) && all_digits cs)

-- The rest of an address, after the first character of the host.
unfoldable pub check_rest : List ℕ → Bool
check_rest [] = true
check_rest (c ∷ cs) = if is_host_char c then check_rest cs else ends_with_port (c ∷ cs)

-- shardcache_check_address_string, with ADDR_REGEXP: whether it returns 0.
unfoldable pub check_address : List ℕ → Bool
check_address [] = false
check_address (c ∷ cs) = is_host_char c && check_rest cs

-- strsep: the token before the delimiter, and what is after it, if it is there.
unfoldable pub strsep : ℕ → List ℕ → List ℕ × Option (List ℕ)
strsep d [] = ([], none)
strsep d (c ∷ cs) =
    let (token, rest) = strsep d cs in if c == d then ([], some cs) else (c ∷ token, rest)

abbrev pub longer : ℕ → List (List ℕ) → List (List ℕ)
longer c [] = (c ∷ []) ∷ []
longer c (t ∷ ts) = (c ∷ t) ∷ ts

-- The tokens that a loop over strsep takes, until it returns NULL.
unfoldable pub tokens : ℕ → List ℕ → List (List ℕ)
tokens d [] = [] ∷ []
tokens d (c ∷ cs) = if c == d then [] ∷ tokens d cs else longer c (tokens d cs)

unfoldable pub all_checked : List (List ℕ) → Bool
all_checked [] = true
all_checked (a ∷ more) = check_address a && all_checked more

-- The node of a string, of its label and what is after its first colon. A string without a colon has
-- no addresses.
unfoldable pub described_by : List ℕ → List ℕ × Option (List ℕ) → Option Description
described_by str (label, none) = some (record { label = label; address = []; string = str })
described_by str (label, some addrs) =
    if all_checked (tokens semicolon addrs)
    then some (record { label = label; address = tokens semicolon addrs; string = str })
    else none

-- shardcache_node_create_from_string
unfoldable pub create_from_string : List ℕ → Option Description
create_from_string str = described_by str (strsep colon str)

-- strcat into a buffer of so many bytes; none where it, with its null byte, would not fit.
unfoldable pub strcat : ℕ → List ℕ → List ℕ → Option (List ℕ)
strcat room s t = if leb (length s + length t + 1) room then some (s ++ t) else none

-- shardcache_node_create: a turn of its loop, on the length of the buffer and its string.
unfoldable pub append_address : ℕ → ℕ → List ℕ → List ℕ → Option (ℕ × List ℕ)
append_address i slen s addr = do
  t ← (if i == 0 then some s else strcat slen s (semicolon ∷ []))
  u ← strcat (slen + (length addr + 1)) t addr
  some (slen + (length addr + 1), u)

unfoldable pub append_all : ℕ → ℕ → List ℕ → List (List ℕ) → Option (ℕ × List ℕ)
append_all i slen s [] = some (slen, s)
append_all i slen s (a ∷ more) = do
  (slen', s') ← append_address i slen s a
  append_all (i + 1) slen' s' more

-- shardcache_node_create; none where it writes outside the buffer of the string.
unfoldable pub node_create : List ℕ → List (List ℕ) → Option Description
node_create label addresses = do
  let slen = length label + 3
  (n, s) ← append_all 0 slen (take (slen - 1) (label ++ colon ∷ [])) addresses
  some (record { label = label; address = addresses; string = s })
