-- ===== src/System/Install/Heartbeats.antt =====
-- What the server reads of the messages that an agent publishes: the loop of
-- cmd/nodefoundry-agent/main.go, and the topic and payload in internal/mqtt/client.go.
use nodefoundry.Base.{Option, some, List, [], ◌∷◌, Text}
use nodefoundry.Model.{state_installed}
use nodefoundry.Mqtt.{StatusMessage, topic_mac}
use nodefoundry.Agent.Client.{Report, Publication}
use nodefoundry.Agent.Process.{Agent, Event, ticked, signalled, commanded}
use nodefoundry.System.Install.{message_of}

-- The reports that the machine gives at the ticks up to a signal.
abbrev pub reports_before_signal : {Payload : Type 0} → List (Event Payload) → List Report
reports_before_signal [] = []
reports_before_signal (ticked r ∷ rest) = r ∷ reports_before_signal rest
reports_before_signal (signalled ∷ rest) = []
reports_before_signal (commanded _ ∷ rest) = reports_before_signal rest

-- A list that is put on another, its first element first.
abbrev pub put_on : {A : Type 0} → List A → List A → List A
put_on [] l = l
put_on (x ∷ more) l = put_on more (x ∷ l)

-- What the server's handler reads of a message: the address in the topic and the payload.
abbrev pub received :
    (Text → Option StatusMessage) → Publication → Option Text × Option StatusMessage
received unmarshal p = (topic_mac p.topic, unmarshal p.payload)

-- What it should read: the address of the agent, and a machine that is installed.
abbrev pub meant : Text → Report → Option Text × Option StatusMessage
meant mac r = (some mac, some (message_of state_installed r))
