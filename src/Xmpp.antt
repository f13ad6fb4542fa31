-- ===== src/Xmpp.antt =====
-- xmpp/types.go: the stanzas that the XMPP client hands to the decoders.
pub mod Handshake
pub mod Frames
pub mod Supervisor
use fngo.Prelude.{String}

pub data StanzaKind : Type 0 where
  message presence iq raw : StanzaKind

pub record Stanza : Type 0 where
  pub kind : StanzaKind
  pub name : String
  pub id : String
  pub from : String
  pub to : String
  pub type : String
  pub body : String
  pub inner_xml : String
  pub raw : String
