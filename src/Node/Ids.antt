-- ===== src/Node/Ids.antt =====
-- The ids of the resources of src/node.cpp: those of one stream are not those of another.
use Prim.Native.String.{◌++◌, count}
use nmos_client.Base.{
  ◌==◌, string_eq, string_iff, List, String, Bool, true, false, ◌≡◌, concat, [], ◌∷◌, refl, ap, sym,
  ◌∙◌,
}
use text.Mathlib.TextLemmas.{append_inj, append_assoc, append_cancel_left, append_cancel_right}
use nmos_client.Reconcile.Kind.{
  Kind, video_receiver, audio_receiver, ancillary_receiver, video_sender, audio_sender,
  ancillary_sender,
}
use nmos_client.Node.Library.{Library}
use nmos_client.Node.State.{Media, video, audio, ancillary}
use nmos_client.Node.Resources.{make_id, port_name}
use nmos_client.Node.Named.{IsInjective}

-- What a resource is to its stream.
pub data Role : Type 0 where
  source flow sender receiver : Role

abbrev pub role_name : Role → String
role_name source = "source"
role_name flow = "flow"
role_name sender = "sender"
role_name receiver = "receiver"

-- Whether the resources of a role are those of senders.
abbrev pub sends : Role → Bool
sends source = true
sends flow = true
sends sender = true
sends receiver = false

abbrev pub is_sender : Kind → Bool
is_sender video_sender = true
is_sender audio_sender = true
is_sender ancillary_sender = true
is_sender _ = false

abbrev media_of : Kind → Media
media_of video_receiver = video
media_of video_sender = video
media_of audio_receiver = audio
media_of audio_sender = audio
media_of ancillary_receiver = ancillary
media_of ancillary_sender = ancillary

abbrev port_of_media : Media → String
port_of_media video = "VIDEO"
port_of_media audio = "AUDIO"
port_of_media ancillary = "DATA"

port_name-media : (k : Kind) → port_name k ≡ port_of_media (media_of k)
port_name-media video_receiver = refl
port_name-media audio_receiver = refl
port_name-media ancillary_receiver = refl
port_name-media video_sender = refl
port_name-media audio_sender = refl
port_name-media ancillary_sender = refl

abbrev kind_from : Bool → Media → Kind
kind_from true video = video_sender
kind_from true audio = audio_sender
kind_from true ancillary = ancillary_sender
kind_from false video = video_receiver
kind_from false audio = audio_receiver
kind_from false ancillary = ancillary_receiver

kind_from-parts : (k : Kind) → kind_from (is_sender k) (media_of k) ≡ k
kind_from-parts video_receiver = refl
kind_from-parts audio_receiver = refl
kind_from-parts ancillary_receiver = refl
kind_from-parts video_sender = refl
kind_from-parts audio_sender = refl
kind_from-parts ancillary_sender = refl

-- Texts with other beginnings of one length differ.
differ :
    (a a' b b' x y : String)
    → count a ≡ count b
    → (a == b) ≡ false
    → (a ++ a') ++ x ≡ (b ++ b') ++ y
    → ⊥
differ a a' b b' x y n d h =
    let (same, rest) = append_inj (sym (append_assoc a a' x) ∙ h ∙ append_assoc b b' y) n in
    cc (sym ((string_iff a b).1 same) ∙ d)

same-role :
    (name : String) (xs ys : List String)
    → concat (name ∷ "/" ∷ xs) ≡ concat (name ∷ "/" ∷ ys)
    → concat xs ≡ concat ys
same-role name xs ys h =
    append_cancel_left "/" (concat xs) (concat ys)
      (append_cancel_left name (concat ("/" ∷ xs)) (concat ("/" ∷ ys)) h)

role-injective :
    (r t : Role) (xs ys : List String)
    → concat (role_name r ∷ "/" ∷ xs) ≡ concat (role_name t ∷ "/" ∷ ys)
    → (r ≡ t) × (concat xs ≡ concat ys)
role-injective source source xs ys h = (refl, same-role "source" xs ys h)
role-injective source flow xs ys h =
    absurd (differ "sou" "rce" "flo" "w" (concat ("/" ∷ xs)) (concat ("/" ∷ ys)) refl refl h)
role-injective source sender xs ys h =
    absurd (differ "sou" "rce" "sen" "der" (concat ("/" ∷ xs)) (concat ("/" ∷ ys)) refl refl h)
role-injective source receiver xs ys h =
    absurd (differ "sou" "rce" "rec" "eiver" (concat ("/" ∷ xs)) (concat ("/" ∷ ys)) refl refl h)
role-injective flow source xs ys h =
    absurd (differ "flo" "w" "sou" "rce" (concat ("/" ∷ xs)) (concat ("/" ∷ ys)) refl refl h)
role-injective flow flow xs ys h = (refl, same-role "flow" xs ys h)
role-injective flow sender xs ys h =
    absurd (differ "flo" "w" "sen" "der" (concat ("/" ∷ xs)) (concat ("/" ∷ ys)) refl refl h)
role-injective flow receiver xs ys h =
    absurd (differ "flo" "w" "rec" "eiver" (concat ("/" ∷ xs)) (concat ("/" ∷ ys)) refl refl h)
role-injective sender source xs ys h =
    absurd (differ "sen" "der" "sou" "rce" (concat ("/" ∷ xs)) (concat ("/" ∷ ys)) refl refl h)
role-injective sender flow xs ys h =
    absurd (differ "sen" "der" "flo" "w" (concat ("/" ∷ xs)) (concat ("/" ∷ ys)) refl refl h)
role-injective sender sender xs ys h = (refl, same-role "sender" xs ys h)
role-injective sender receiver xs ys h =
    absurd (differ "sen" "der" "rec" "eiver" (concat ("/" ∷ xs)) (concat ("/" ∷ ys)) refl refl h)
role-injective receiver source xs ys h =
    absurd (differ "rec" "eiver" "sou" "rce" (concat ("/" ∷ xs)) (concat ("/" ∷ ys)) refl refl h)
role-injective receiver flow xs ys h =
    absurd (differ "rec" "eiver" "flo" "w" (concat ("/" ∷ xs)) (concat ("/" ∷ ys)) refl refl h)
role-injective receiver sender xs ys h =
    absurd (differ "rec" "eiver" "sen" "der" (concat ("/" ∷ xs)) (concat ("/" ∷ ys)) refl refl h)
role-injective receiver receiver xs ys h = (refl, same-role "receiver" xs ys h)

same-port : (name i j : String) → concat (name ∷ i ∷ []) ≡ concat (name ∷ j ∷ []) → i ≡ j
same-port name i j h =
    append_cancel_right i j "" (append_cancel_left name (concat (i ∷ [])) (concat (j ∷ [])) h)

port-injective :
    (a b : Media) (i j : String)
    → concat (port_of_media a ∷ i ∷ []) ≡ concat (port_of_media b ∷ j ∷ [])
    → (a ≡ b) × (i ≡ j)
port-injective video video i j h = (refl, same-port "VIDEO" i j h)
port-injective video audio i j h =
    absurd (differ "VI" "DEO" "AU" "DIO" (concat (i ∷ [])) (concat (j ∷ [])) refl refl h)
port-injective video ancillary i j h =
    absurd (differ "VI" "DEO" "DA" "TA" (concat (i ∷ [])) (concat (j ∷ [])) refl refl h)
port-injective audio video i j h =
    absurd (differ "AU" "DIO" "VI" "DEO" (concat (i ∷ [])) (concat (j ∷ [])) refl refl h)
port-injective audio audio i j h = (refl, same-port "AUDIO" i j h)
port-injective audio ancillary i j h =
    absurd (differ "AU" "DIO" "DA" "TA" (concat (i ∷ [])) (concat (j ∷ [])) refl refl h)
port-injective ancillary video i j h =
    absurd (differ "DA" "TA" "VI" "DEO" (concat (i ∷ [])) (concat (j ∷ [])) refl refl h)
port-injective ancillary audio i j h =
    absurd (differ "DA" "TA" "AU" "DIO" (concat (i ∷ [])) (concat (j ∷ [])) refl refl h)
port-injective ancillary ancillary i j h = (refl, same-port "DATA" i j h)

module _ {D : Type 0} (L : Library D) (injective : IsInjective L) where
  -- An id tells the role, the kind and the id of the stream.
  pub make_id-distinct :
      (seed : String) (r t : Role) (k l : Kind) (i j : String)
      → sends r ≡ is_sender k
      → sends t ≡ is_sender l
      → make_id L seed (role_name r) k i ≡ make_id L seed (role_name t) l j
      → (k ≡ l) × (i ≡ j)
  make_id-distinct seed r t k l i j p q h =
      let (same, rest) = role-injective r t (port_name k ∷ i ∷ []) (port_name l ∷ j ∷ []) (
        append_cancel_left "/x-nmos/node/" (concat (role_name r ∷ "/" ∷ port_name k ∷ i ∷ []))
          (concat (role_name t ∷ "/" ∷ port_name l ∷ j ∷ []))
          (injective seed (concat ("/x-nmos/node/" ∷ role_name r ∷ "/" ∷ port_name k ∷ i ∷ []))
            (concat ("/x-nmos/node/" ∷ role_name t ∷ "/" ∷ port_name l ∷ j ∷ [])) h)) in
      let (media, id) =
        port-injective (media_of k) (media_of l) i j
          (rw (← port_name-media k, ← port_name-media l) rest) in
      (
        sym (kind_from-parts k)
            ∙ ap (λ b. kind_from b (media_of k)) (sym p ∙ ap sends same ∙ q)
            ∙ ap (kind_from (is_sender l)) media
            ∙ kind_from-parts l,
        id,
      )
