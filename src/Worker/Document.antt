-- ===== src/Worker/Document.antt =====
-- worker.go: xmlLooksLike, on the tokens that encoding/xml's decoder yields.
use go_stripenav.Base.{Bool, false, List, [], ◌∷◌, Bytes, str_eq}

-- A token, with the local name where it is a start element.
pub data XmlToken : Type 0 where
  start_element : Bytes → XmlToken
  other_token : XmlToken

-- Whether the first start element has the name; the tokens are those before the decoder's error,
-- which it also returns at the end of the document.
unfoldable pub xml_looks_like : List XmlToken → Bytes → Bool
xml_looks_like [] root = false
xml_looks_like (start_element name ∷ ts) root = str_eq name root
xml_looks_like (other_token ∷ ts) root = xml_looks_like ts root
