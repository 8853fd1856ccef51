-- ===== src/ConfigGen/Made.antt =====
-- What the generator went through when it has made a file.
use trebiz.Prelude.{ℕ, ◌≡◌, ◌∙◌, refl, ap, List, Option, none, some, bytes_key}
use trebiz.Messages.{Bytes}
use trebiz.Node.Env.{PriShare}
use trebiz.Sign.Keys.{KeyCodec, encode_ts_partial_key, encode_ts_public_key}
use trebiz.Config.Load.{Setting, Loading, loaded, refused, panicked, ◌>>=◌}
use trebiz.ConfigGen.Files.{
  Template, Generated, Entry, replica_of, ip_index, or_panic, nth, settings_of, node_file,
}

pub bind-loaded {ℓ κ} :
    {A : Type ℓ} {B : Type κ} (m : Loading A) (f : A → Loading B) (b : B)
    → (m >>= f) ≡ loaded b
    → (a : A) × (m ≡ loaded a) × (f a ≡ loaded b)
bind-loaded (loaded a) f b h = (a, refl, h)
bind-loaded refused f b h = absurd cc
bind-loaded panicked f b h = absurd cc

or_panic-loaded {ℓ} : {A : Type ℓ} (o : Option A) (a : A) → or_panic o ≡ loaded a → o ≡ some a
or_panic-loaded none a h = absurd cc
or_panic-loaded (some b) a h = cc

pub loaded-eq {ℓ} : {A : Type ℓ} (a b : A) → ◌≡◌ {A = Loading A} (loaded a) (loaded b) → a ≡ b
loaded-eq a b h = cc

-- What `node_file` went through to give a file.
pub record HasFile (k : KeyCodec) (t : Template) (g : Generated) (host : Bytes)
    (file : List (Setting × Entry)) : Type 0 where
  pub index : ℕ
  pub share : PriShare
  pub fast_share : PriShare
  pub share_text : Bytes
  pub poly_text : Bytes
  pub fast_share_text : Bytes
  pub fast_poly_text : Bytes
  pub share_at : nth (replica_of index 0) g.shares ≡ some share
  pub fast_share_at : nth (replica_of index 0) g.fast_shares ≡ some fast_share
  pub share_encoded : encode_ts_partial_key k share ≡ some share_text
  pub poly_encoded : encode_ts_public_key k g.pub_poly ≡ some poly_text
  pub fast_share_encoded : encode_ts_partial_key k fast_share ≡ some fast_share_text
  pub fast_poly_encoded : encode_ts_public_key k g.fast_pub_poly ≡ some fast_poly_text
  pub index_at : ip_index host ≡ loaded (some index)
  pub file_is :
      settings_of t g host (replica_of index 0) share_text poly_text fast_share_text fast_poly_text
      ≡ file

pub node_file-HasFile :
    (k : KeyCodec) (t : Template) (g : Generated) (host : Bytes) (file : List (Setting × Entry))
    → node_file k t g host ≡ loaded file
    → HasFile k t g host file
unfolding node_file
node_file-HasFile k t g host file h =
    let (ip, named, h1) = bind-loaded (ip_index host) _ file h in
    let (index, numbered, h2) = bind-loaded (or_panic ip) _ file h1 in
    let (share, share_at, h3) =
      bind-loaded (or_panic (nth (replica_of index 0) g.shares)) _ file h2 in
    let (share_text, share_encoded, h4) =
      bind-loaded (or_panic (encode_ts_partial_key k share)) _ file h3 in
    let (poly_text, poly_encoded, h5) =
      bind-loaded (or_panic (encode_ts_public_key k g.pub_poly)) _ file h4 in
    let (fast_share, fast_share_at, h6) =
      bind-loaded (or_panic (nth (replica_of index 0) g.fast_shares)) _ file h5 in
    let (fast_share_text, fast_share_encoded, h7) =
      bind-loaded (or_panic (encode_ts_partial_key k fast_share)) _ file h6 in
    let (fast_poly_text, fast_poly_encoded, h8) =
      bind-loaded (or_panic (encode_ts_public_key k g.fast_pub_poly)) _ file h7 in
    record {
      index = index;
      share = share;
      fast_share = fast_share;
      share_text = share_text;
      poly_text = poly_text;
      fast_share_text = fast_share_text;
      fast_poly_text = fast_poly_text;
      share_at = or_panic-loaded _ share share_at;
      fast_share_at = or_panic-loaded _ fast_share fast_share_at;
      share_encoded = or_panic-loaded _ share_text share_encoded;
      poly_encoded = or_panic-loaded _ poly_text poly_encoded;
      fast_share_encoded = or_panic-loaded _ fast_share_text fast_share_encoded;
      fast_poly_encoded = or_panic-loaded _ fast_poly_text fast_poly_encoded;
      index_at = named ∙ ap loaded (or_panic-loaded ip index numbered);
      file_is = loaded-eq _ file h8;
    }
