-- ===== src/Secrets/Tests.antt =====
-- crates/secrets: a file system and codecs that keep the assumptions, and the theorems at them.
use Prim.Native.Char.{Char, code}
use headless_mcp_server.Prelude.{
  ℕ, zero, suc, String, ◌≡◌, inl, refl, sym, ap, Bool, true, false, Option, none, some, List, [],
  ◌∷◌, ◌++◌, Result, ok, err, length, eqb, if◌then◌else◌, ◌&&◌,
}
use headless_mcp_server.Secrets.{IsStore}
use headless_mcp_server.Secrets.Sealed.{StoreFile, Codecs}
use headless_mcp_server.Secrets.FileStore.{Files, file_store, get_secret, set_secret}
use headless_mcp_server.Secrets.FileStore.Assumptions.{IsCodec, IsFiles}
use headless_mcp_server.Secrets.FileStore.Seen.{seen}
use headless_mcp_server.Secrets.FileStore.Reading.{lookup}
use headless_mcp_server.Secrets.FileStore.Laws.{file_store-IsStore}

-- Strings in a row, in characters: one mark before each character and another at each end.
abbrev tick : Char
tick = "+"

abbrev end_mark : Char
end_mark = "."

abbrev to_list : String → List Char
to_list String.[] = []
to_list (String.◌∷◌ c s) = c ∷ to_list s

abbrev of_list : List Char → String
of_list [] = ""
of_list (c ∷ l) = String.◌∷◌ c (of_list l)

to_list-of_list : (l : List Char) → to_list (of_list l) ≡ l
to_list-of_list [] = refl
to_list-of_list (c ∷ l) = ap (λ (m : List Char). c ∷ m) (to_list-of_list l)

of_list-to_list : (s : String) → of_list (to_list s) ≡ s
of_list-to_list String.[] = refl
of_list-to_list (String.◌∷◌ c s) = ap (λ (t : String). String.◌∷◌ c t) (of_list-to_list s)

abbrev put : String → List Char → List Char
put String.[] rest = end_mark ∷ rest
put (String.◌∷◌ c s) rest = tick ∷ c ∷ put s rest

abbrev cons_first : Char → List String → List String
cons_first c [] = []
cons_first c (s ∷ ss) = String.◌∷◌ c s ∷ ss

parse : List Char → List String
parse [] = []
parse (m ∷ []) = "" ∷ []
parse (m ∷ c ∷ rest) =
    let after = parse rest in
    let ended = parse (c ∷ rest) in if eqb (code m) b'+' then cons_first c after else "" ∷ ended

parse-put : (s : String) (rest : List Char) → parse (put s rest) ≡ s ∷ parse rest
unfolding parse
parse-put String.[] [] = refl
parse-put String.[] (c ∷ rest) = refl
parse-put (String.◌∷◌ c s) rest = rw (parse-put s rest) refl

triples : List String → StoreFile
triples (k ∷ n ∷ c ∷ more) = (k, record { nonce = n; ciphertext = c }) ∷ triples more
triples _ = []

print : StoreFile → List Char
print [] = []
print ((k, e) ∷ file) = put k (put e.nonce (put e.ciphertext (print file)))

triples-print : (file : StoreFile) → triples (parse (print file)) ≡ file
unfolding triples print parse
triples-print [] = refl
triples-print ((k, e) ∷ file) = rw (parse-put k _) (
    rw (parse-put e.nonce _)
      (rw (parse-put e.ciphertext _) (ap (λ (f : StoreFile). (k, e) ∷ f) (triples-print file))))

abbrev read_map : List Char → Result StoreFile String
read_map [] = err "empty"
read_map (c ∷ bytes) = ok (triples (parse bytes))

-- The cipher puts the nonce first.
abbrev drop_nonce : List Char → List Char → Option (List Char)
drop_nonce [] c = some c
drop_nonce (n ∷ nonce) [] = none
drop_nonce (n ∷ nonce) (c ∷ ciphertext) = drop_nonce nonce ciphertext

drop_nonce-append : (nonce p : List Char) → drop_nonce nonce (nonce ++ p) ≡ some p
drop_nonce-append [] p = refl
drop_nonce-append (n ∷ nonce) p = drop_nonce-append nonce p

abbrev plain_codecs : Codecs Char
plain_codecs = record {
  encrypt = λ nonce p. some (nonce ++ p);
  decrypt = λ nonce c. drop_nonce nonce c;
  encode = of_list;
  decode = λ s. some (to_list s);
  as_bytes = to_list;
  from_utf8 = λ b. some (of_list b);
  from_slice = read_map;
  to_vec_pretty = λ file. ok (tick ∷ print file);
}

opens_sealed :
    (nonce p c : List Char)
    → ◌≡◌ {A = Option (List Char)} (some (nonce ++ p)) (some c)
    → drop_nonce nonce c ≡ some p
opens_sealed nonce p c h =
    let same : nonce ++ p ≡ c = cc in rw (sym same) (drop_nonce-append nonce p)

reads_printed :
    (file : StoreFile) (bytes : List Char)
    → ◌≡◌ {A = Result (List Char) String} (ok (tick ∷ print file)) (ok bytes)
    → read_map bytes ≡ ok file
reads_printed file bytes h =
    let same : tick ∷ print file ≡ bytes = cc in rw (sym same) (ap ok (triples-print file))

plain_codecs-IsCodec : IsCodec plain_codecs
plain_codecs-IsCodec = record {
  opens = λ nonce p h. opens_sealed nonce p _ h;
  decodes = λ b. ap some (to_list-of_list b);
  reads_text = λ s. ap some (of_list-to_list s);
  reads_file = λ file h. (file, reads_printed file _ h, λ k. refl);
  not_empty = λ file h. cc;
}

-- A disk on which the metadata of the path can be read, or not.
record Disk : Type 0 where
  file : Option (List Char)
  readable : Bool
  temp : List Char

abbrev is_some : Option (List Char) → Bool
is_some none = false
is_some (some b) = true

abbrev or_error : Option (List Char) → Result (List Char) String
or_error none = err "not found"
or_error (some b) = ok b

abbrev nonce_of : ℕ → List Char
nonce_of zero = []
nonce_of (suc n) = tick ∷ nonce_of n

abbrev memory : Files Char Disk (Unit {0})
memory = record {
  exists = λ d. d.readable && is_some d.file;
  read = λ d. (or_error d.file, d);
  create_dir_all = λ d. (ok tt, d);
  new_temp = λ d. (ok tt, record d { temp = [] });
  write_all = λ t b d. (ok tt, record d { temp = d.temp ++ b });
  sync_all = λ t d. (ok tt, d);
  set_owner_only = λ t d. (ok tt, d);
  persist = λ t d. (ok tt, record d { file = some d.temp; readable = true });
  random = λ n d. (nonce_of n, d);
}

length-nonce_of : (n : ℕ) → length (nonce_of n) ≡ n
length-nonce_of zero = refl
length-nonce_of (suc n) = ap suc (length-nonce_of n)

exists-eq-true :
    (b : Bool) (o : Option (List Char))
    → (b && is_some o) ≡ true
    → (bytes : List Char) × (o ≡ some bytes)
exists-eq-true false o h = cc
exists-eq-true true none h = cc
exists-eq-true true (some bytes) h = (bytes, refl)

abbrev contents : Disk → Option (List Char)
contents d = d.file

abbrev written : Unit {0} → Disk → List Char
written t d = d.temp

memory-IsFiles : IsFiles memory contents written
memory-IsFiles = record {
  present = λ d. exists-eq-true d.readable d.file;
  reads = λ d same. inl (rw same refl);
  read_keeps = λ d. (refl, refl);
  create_keeps = λ d. (refl, refl);
  temp_keeps = λ d. (refl, refl);
  write_keeps = λ t b d. (refl, refl);
  sync_keeps = λ t d. (refl, refl);
  owner_keeps = λ t d. (refl, refl);
  random_keeps = λ n d. (refl, refl);
  persist_keeps = λ t d h. cc;
  temp_empty = λ t d h. refl;
  writes = λ t b d h. refl;
  sync_written = λ t d. refl;
  owner_written = λ t d. refl;
  persists = λ t d h. (refl, refl);
  random_length = λ n d. length-nonce_of n;
}

file_store-IsStore_example :
    IsStore (lookup plain_codecs (seen memory contents)) (file_store plain_codecs memory)
file_store-IsStore_example =
    file_store-IsStore plain_codecs memory contents written plain_codecs-IsCodec memory-IsFiles

abbrev after_set : Disk
after_set =
    ((file_store plain_codecs memory).set "token" "s3cret"
      (record { file = none; readable = true; temp = [] })).1

after_set_test : ((file_store plain_codecs memory).get "token" after_set).0 ≡ ok (some "s3cret")
unfolding get_secret set_secret parse triples print
after_set_test = refl

-- Where the metadata of the path cannot be read, a secret that is there is not seen, and no error is
-- given.
unreadable_test :
    ((file_store plain_codecs memory).get "token" (record after_set { readable = false })).0
    ≡ ok none
unfolding get_secret set_secret parse triples print
unreadable_test = refl
