-- ===== src/Kellner/Ampel.antt =====
-- The traffic light of the orders: `updateAmpel` of DetailEinstellungenVC.swift, the models that
-- `loadampel` of KellnerVC.swift and `loadampel2` of KellnerAngenommenVC.swift read, and the colour
-- that these give to the header of an order.
pub mod Grenzen
use smolokellner.Base.{Bool, true, false, ◌&&◌, ◌||◌, Option, none, some, if◌then◌else◌}
use mathlib.Core.Option.{get_or}
use smolokellner.Rechnung.Daten.{Equal, ◌>>=◌}
use smolokellner.Kellner.Datenbank.{Datenbank}

-- The children of "Ampelregel".
pub data Regel : Type 0 where
  rot gelb rot2 gelb2 : Regel

pub data Farbe : Type 0 where
  gruen gelblich roetlich : Farbe

-- What is used of `Double`.
pub record Zahlen (Text Zahl : Type 0) : Type 0 where
  pub of_text : Text → Option Zahl
  pub mal : Zahl → Zahl → Zahl
  pub kleiner : Zahl → Zahl → Bool
  pub n60 : Zahl
  pub n3000 : Zahl
  pub n6000 : Zahl

-- `Ampelmodel`, and what it makes of a dictionary.
pub record Ampelmodel (Zahl : Type 0) : Type 0 where
  pub m_rot : Zahl
  pub m_gelb : Zahl
  pub m_rot2 : Zahl
  pub m_gelb2 : Zahl

unfoldable pub vorhanden : {Zahl : Type 0} → Option Zahl → Bool
vorhanden none = false
vorhanden (some z) = true

module _ {Text Zahl Stand : Type 0} ⦃db : Datenbank Regel Zahl Stand⦄ ⦃eq : Equal Text⦄
    (zahlen : Zahlen Text Zahl) (leer : Text) where
  open db use {get, update_child}
  open eq use {same}
  open zahlen use {of_text, mal, n60, n3000, n6000}

  -- A text field of `updateAmpel`, which `Double(text)!` reads.
  unfoldable pub feld : Text → Regel → Stand → Option Stand
  feld text regel s =
      if same text leer
      then some s
      else (of_text text >>= λ minuten. some (update_child s regel (mal minuten n60)))

  unfoldable pub update_ampel : (gelbtxt rottxt rottxt2 gelbtxt2 : Text) → Stand → Option Stand
  update_ampel gelbtxt rottxt rottxt2 gelbtxt2 s = feld gelbtxt gelb s >>= λ s1.
      feld rottxt rot s1 >>= λ s2. feld rottxt2 rot s2 >>= λ s3. feld gelbtxt2 rot s3

  unfoldable pub ampelmodel : Stand → Ampelmodel Zahl
  ampelmodel s = record {
    m_rot = get_or (get s rot) n6000;
    m_gelb = get_or (get s gelb) n3000;
    m_rot2 = get_or (get s rot2) n6000;
    m_gelb2 = get_or (get s gelb2) n3000;
  }

  -- There is a dictionary when one of the children has a value.
  unfoldable pub hat_regel : Stand → Bool
  hat_regel s =
      vorhanden (get s rot)
      || vorhanden (get s gelb)
      || vorhanden (get s rot2)
      || vorhanden (get s gelb2)

  -- The red and the yellow limit of the screen of the new orders.
  unfoldable pub loadampel : Zahl × Zahl → Stand → Zahl × Zahl
  loadampel before s = if hat_regel s then ((ampelmodel s).m_rot, (ampelmodel s).m_gelb) else before

  -- Those of the screen of the accepted orders.
  unfoldable pub loadampel2 : Zahl × Zahl → Stand → Zahl × Zahl
  loadampel2 before s =
      if hat_regel s then ((ampelmodel s).m_rot2, (ampelmodel s).m_gelb2) else before

module _ {Text Zahl : Type 0} (zahlen : Zahlen Text Zahl) where
  open zahlen use {kleiner}

  -- The colour of the header of an order that waits for the given interval; the one that it has
  -- before comes from the header.
  unfoldable pub farbe : Zahl × Zahl → Zahl → Farbe → Farbe
  farbe (rote_ampel, gelbe_ampel) intervale f =
      let f1 = if kleiner intervale gelbe_ampel then gruen else f in
      let f2 =
        if kleiner gelbe_ampel intervale && kleiner intervale rote_ampel then gelblich else f1 in
      if kleiner rote_ampel intervale then roetlich else f2
