-- ===== src/Tests/Secrets.antt =====
-- Passwords under a code that stands in for OpenSSL, LAN properties, and the numbers of sensors.
use platform_event_filter.Common.{
  ℕ, Bool, zero, suc, sym, ap, Bool-cases, eq_iff, ◌===◌, ◌≡◌, ◌↔◌, ◌≢◌, refl, arith, none, some,
  inl, inr, true, false, leb, [], ◌∷◌, String, is_empty, if◌then◌else◌, length, Option,
}
use platform_event_filter.Bus.{raised}
use platform_event_filter.Tests.Fixtures.{answer}
use platform_event_filter.Tests.Marks.{encode_marks, decode_marks, decode_marks-encode_marks}
use platform_event_filter.Notification.Managers.{body_of}
use mathlib.Core.Option.{some-injective, none-ne-some}
use mathlib.Core.List.{nil≢cons}
use platform_event_filter.Encryption.{
  Bytes, OpenSsl, KeyFiles, Writable, encrypt_string, decrypt_string, prepare_keys, has_both,
  aes_generate_and_save_keys, random_keys, save_keys, encrypt_from, encrypt_with,
  aes_get_key_from_file, sized, encode_ciphertext, base64_encode, base64_decode, read_bytes,
}
use platform_event_filter.Encryption.RoundTrip.{Inverts, decrypt_string-encrypt_string}
use platform_event_filter.LanProperties.{Lan, Answers, Request, handle}
use platform_event_filter.LanProperties.Takes.{Takes, handle-Takes}
use platform_event_filter.LanProperties.Steps.{
  Step, Reach, IsSound, Reach-IsSound, Settled, key_of, value_of, handle-Settled,
}
use platform_event_filter.SensorTree.{
  SensorSubTree, Mapper, empty_cache, number_sensors, get_sensor_num_map,
}
use platform_event_filter.SensorTree.Numbers.{numbered, number_sensors_lem}
use platform_event_filter.SensorTree.Stale.{calls, HasNone, failed_subtree_stays}

-- Key, vector and ciphertext are coded by marks; the cipher knows one text.
abbrev zeros : ℕ → Bytes
zeros zero = []
zeros (suc n) = 0 ∷ zeros n

abbrev one_text : String
one_text = "secret"

abbrev known : String → Option Bytes
known p = if p === one_text then some (7 ∷ []) else none

abbrev ssl : OpenSsl
ssl = record {
  rand_key = some (zeros 32);
  rand_iv = some (zeros 16);
  bio_write = encode_marks;
  bio_read = λ s size. decode_marks s;
  encrypt = λ key iv p. known p;
  decrypt = λ key iv c. some one_text;
}

known_text : (p : String) (c : Bytes) → known p ≡ some c → p ≡ one_text
known_text p c e = elim (Bool-cases (p === one_text)) [
  | inl f ↦ (eq_iff p one_text).0 f
  | inr f ↦ absurd (none-ne-some c (rw (f) at e))
]

some_block : (p : String) → known p ≢ some []
some_block p e = elim (Bool-cases (p === one_text)) [
  | inl f ↦ absurd (nil≢cons (sym (some-injective (7 ∷ []) [] (rw (f) at e))))
  | inr f ↦ none-ne-some [] (rw (f) at e)
]

ssl-Inverts : Inverts ssl
ssl-Inverts = record {
  read_write = λ b bs. decode_marks-encode_marks (b ∷ bs);
  decrypt_encrypt = λ key iv p c e. ap some (sym (known_text p c e));
  padded = λ key iv p. some_block p;
}

abbrev no_files : KeyFiles
no_files = record { key = none; iv = none }

abbrev writable : Writable
writable = record { key = true; iv = true }

encrypted : is_empty (encrypt_string ssl writable no_files one_text).0 ≡ false
unfolding encrypt_string prepare_keys has_both aes_generate_and_save_keys random_keys save_keys
    encrypt_from encrypt_with aes_get_key_from_file sized encode_ciphertext base64_encode
    base64_decode read_bytes
encrypted = refl

decrypt_string-encrypt_string_example :
    decrypt_string ssl
      (encrypt_string ssl writable no_files one_text).1
      (encrypt_string ssl writable no_files one_text).0
    ≡ one_text
decrypt_string-encrypt_string_example =
    decrypt_string-encrypt_string ssl ssl-Inverts writable no_files one_text encrypted

-- A LAN interface with one destination.
abbrev lan : Lan
lan = record {
  properties = record {
    community_string = "public";
    ipv4 = "0.0.0.0" ∷ [];
    ipv6 = "" ∷ [];
    user_name = "" ∷ [];
    types = 0 ∷ [];
    timeout = 5 ∷ [];
    retries = 3 ∷ [];
    address_type = 1 ∷ [];
    shared_types = 0 ∷ [];
  };
  file = none;
}

abbrev pub answers : Answers
answers = record {
  inet_pton = λ s. true;
  resolves = λ s. false;
  knows_community = λ s. true;
  users = record {
    get_all = λ i name. answer tt;
    snmp_access = λ i name. answer true;
    smtp_mail_id = λ i name. raised;
  };
  opened = true;
}

abbrev takes_any : String → Bool
takes_any = λ s. true

abbrev takes_none : String → Bool
takes_none = λ s. false

lan-IsSound : IsSound takes_any takes_none takes_any "eth0" lan.properties
lan-IsSound = record {
  shared = refl;
  community = (omega arith, inr refl);
  ipv4_addresses = (inr (inl refl), tt);
  ipv6_addresses = (inl refl, tt);
  known_types = (inl (omega arith), tt);
  bounded_retries = (omega arith, tt);
  known_address_types = (inl refl, tt);
}

abbrev pub to_mail : Request
to_mail = Request.set_types (3 ∷ [])

after_types : Lan
after_types = (handle "eth0" answers to_mail lan).1

Reach-IsSound_example : IsSound takes_any takes_none takes_any "eth0" after_types.properties
unfolding after_types
Reach-IsSound_example =
    Reach-IsSound takes_any takes_none takes_any "eth0"
      (Reach.next Reach.here (Step.request answers.users true to_mail)) lan-IsSound

handle-Takes_example :
    ((handle "eth0" answers to_mail lan).0 ≡ true)
    ↔ Takes answers lan.properties.shared_types to_mail
handle-Takes_example = handle-Takes "eth0" answers to_mail lan

handle-Settled_example :
    Settled "eth0" (key_of to_mail) (value_of to_mail) lan (handle "eth0" answers to_mail lan)
handle-Settled_example = handle-Settled "eth0" answers to_mail lan refl

-- Two sensors, and a mapper that does not answer at first.
abbrev sensors : SensorSubTree
sensors = ("/sensors/fan_tach/CPU", "fans" ∷ []) ∷ ("/sensors/os/Stop", "os" ∷ []) ∷ []

number_sensors_example : number_sensors 0 sensors ≡ (numbered 0 sensors, leb 765 (length sensors))
number_sensors_example = number_sensors_lem sensors

abbrev silent : Mapper
silent = record { connects = true; get_sub_tree = raised }

abbrev answering : Mapper
answering = record { connects = true; get_sub_tree = answer sensors }

silent_body : body_of silent.get_sub_tree ≡ none
unfolding body_of
silent_body = refl

failed_subtree_stays_example :
    HasNone (get_sensor_num_map answering (calls (silent ∷ answering ∷ []) empty_cache))
failed_subtree_stays_example =
    failed_subtree_stays silent (answering ∷ []) answering refl silent_body
