-- ===== src/Descriptor/Iterator/Content.antt =====
-- The descriptors that the iterator gives are made of bytes.
use embassy_rp_pio_usb_host.Common.{
  ℕ, zero, suc, take, ◌≡◌, List, [], ◌∷◌, ◌++◌, Result, ok, err, Bytes, IsBytes, subst,
}
use embassy_rp_pio_usb_host.Descriptor.Iterator.{DescriptorIter, new, items}
use embassy_rp_pio_usb_host.Descriptor.Configuration.{ConfigurationError}
use embassy_rp_pio_usb_host.Descriptor.Iterator.Framing.{Framed, items-Framed}

-- Each descriptor among the items is made of bytes.
abbrev pub AreBytes : List (Result ConfigurationError Bytes) → Type 0
AreBytes [] = Unit
AreBytes (err e ∷ items) = AreBytes items
AreBytes (ok d ∷ items) = IsBytes d × AreBytes items

append-IsBytes : (xs ys : Bytes) → IsBytes (xs ++ ys) → IsBytes xs × IsBytes ys
append-IsBytes [] ys h = (tt, h)
append-IsBytes (x ∷ xs) ys (b, h) = let (l, r) = append-IsBytes xs ys h in ((b, l), r)

pub Framed-AreBytes :
    {bytes : Bytes} {items : List (Result ConfigurationError Bytes)}
    → Framed bytes items
    → IsBytes bytes
    → AreBytes items
Framed-AreBytes Framed.done h = tt
Framed-AreBytes (Framed.descriptor {bytes} {rest} {rs} d two size cut more) h =
    let (l, r) = append-IsBytes d rest (subst IsBytes cut h) in (l, Framed-AreBytes more r)
Framed-AreBytes (Framed.stub s) h = tt
Framed-AreBytes (Framed.too_small s t) h = tt
Framed-AreBytes (Framed.overrun s t) h = tt

take-IsBytes : (n : ℕ) (xs : Bytes) → IsBytes xs → IsBytes (take n xs)
take-IsBytes zero xs h = tt
take-IsBytes (suc n) [] h = tt
take-IsBytes (suc n) (x ∷ xs) (b, h) = (b, take-IsBytes n xs h)

pub items-AreBytes :
    (bytes : Bytes) (it : DescriptorIter) → IsBytes bytes → new bytes ≡ ok it → AreBytes (items it)
items-AreBytes bytes it h e =
    Framed-AreBytes (items-Framed bytes it e) (take-IsBytes it.total_length bytes h)
