-- ===== src/Config/ClientConf/Pairs.antt =====
-- The pairs of a client.conf that is loaded (roles/msp_broker/files/broker/config.py).
use msp_fleet_public.Base.{
  ℕ, ◌+◌, String, true, ◌≡◌, subst, Option, none, some, List, [], ◌∷◌, arith, Bool-cases, inl, inr,
}
use msp_fleet_public.Config.{Content, key_match, read_file}
use msp_fleet_public.Config.ClientConf.{is_comment, read_pair, read_lines, required, load_client}
use msp_fleet_public.Failure.{ok, ◌>>=◌, bind-eq-ok}
use msp_fleet_public.Kinds.{codes}
use msp_fleet_public.Plan.{Client}
use msp_fleet_public.Text.{strip, splitlines, partition_at}
use msp_fleet_public.Value.{lookup}

-- Every value has the form of a key.
abbrev pub AllMatch : List (String × String) → Type 0
AllMatch [] = Unit
AllMatch ((key, value) ∷ out) = (key_match (codes value) ≡ true) × AllMatch out

read_pair-match :
    (n : ℕ) (parts : Option (String × String)) (pair : String × String)
    → read_pair n parts ≡ ok pair
    → key_match (codes pair.1) ≡ true
unfolding read_pair
read_pair-match n none pair h = cc
read_pair-match n (some (left, right)) pair h = ground arith

read_lines-AllMatch :
    (n : ℕ) (lines : List String) (out done : List (String × String))
    → AllMatch out
    → read_lines n lines out ≡ ok done
    → AllMatch done
unfolding read_lines
read_lines-AllMatch n [] out done m h = let e : out ≡ done = cc in subst AllMatch e m
read_lines-AllMatch n (raw ∷ lines) out done m h = elim (Bool-cases (is_comment (strip raw))) [
  | inl e ↦ read_lines-AllMatch (n + 1) lines out done m (rw (e, read_lines) at h)
  | inr e ↦
      let k : (read_pair n (partition_at b'=' (strip raw)) >>= λ pair.
      read_lines (n + 1) lines (pair ∷ out))
          ≡ ok done =
        rw (e, read_lines) at h in
      let (pair, found, rest) = bind-eq-ok (read_pair n (partition_at b'=' (strip raw))) _ done k in
      read_lines-AllMatch (n + 1) lines (pair ∷ out) done (read_pair-match n _ pair found, m) rest
]

lookup-AllMatch :
    (key : String) (out : List (String × String)) (value : String)
    → AllMatch out
    → lookup key out ≡ some value
    → key_match (codes value) ≡ true
lookup-AllMatch key [] value m h = cc
lookup-AllMatch key ((k, v) ∷ out) value m h = ground (arith, lookup-AllMatch key out value)

lookup-required :
    (key : String) (out : List (String × String)) (value : String)
    → required key out ≡ ok value
    → lookup key out ≡ some value
lookup-required key out value h = ground arith

-- A client that is loaded has an identifier, a name and a site that have the form of a key: 1 to 64
-- characters of the class, the first a letter or digit, and perhaps a newline.
pub load_client-match :
    (content : Content) (client : Client)
    → load_client content ≡ ok client
    → (key_match (codes client.client_id) ≡ true)
      × (key_match (codes client.client_name) ≡ true)
      × (key_match (codes client.site_id) ≡ true)
unfolding load_client
load_client-match content client h =
    let (text, read, h₁) = bind-eq-ok (read_file content) _ client h in
    let (out, lines, h₂) = bind-eq-ok (read_lines 1 (splitlines text) []) _ client h₁ in
    let m = read_lines-AllMatch 1 (splitlines text) [] out tt lines in
    let (id, f, h₃) = bind-eq-ok (required "client_id" out) _ client h₂ in
    let (name, g, h₄) = bind-eq-ok (required "client_name" out) _ client h₃ in
    let (site, k, h₅) = bind-eq-ok (required "site_id" out) _ client h₄ in
    let loaded : Client = record { client_id = id; client_name = name; site_id = site } in
    let made : loaded ≡ client = cc in
    subst
      (λ (c : Client).
        (key_match (codes c.client_id) ≡ true)
        × (key_match (codes c.client_name) ≡ true)
        × (key_match (codes c.site_id) ≡ true))
      made
      (
        lookup-AllMatch "client_id" out id m (lookup-required "client_id" out id f),
        lookup-AllMatch "client_name" out name m (lookup-required "client_name" out name g),
        lookup-AllMatch "site_id" out site m (lookup-required "site_id" out site k),
      )
